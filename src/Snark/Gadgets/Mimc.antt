-- ===== src/Snark/Gadgets/Mimc.antt =====
-- `MiMCHash` (yacl/snark/gadgets.cc) and the permutation that it computes.
use yacl_r.Base.{
  ℕ, zero, suc, ◌+◌, ◌<◌, ◌≡◌, ◌⊎◌, inl, inr, refl, sym, ap, subst, ◌∙◌, true, false, ok, arith,
  ltb, Bool-cases,
}
use yacl_r.Base.Int.{ℤ, pos, ◌+ℤ◌, ◌*ℤ◌, *ℤ_assoc, one-*ℤ, eq_of_parts, sums}
use yacl_r.Base.Residue.{residue}
use yacl_r.Snark.R1cs.Values.{all_hold}
use yacl_r.Snark.Builder.{CircuitBuilder, add, mul, add_const}
use yacl_r.Snark.Builder.Linear.{val}
use yacl_r.Snark.Builder.Extends.{Extends, trans, mul-Extends, add-Extends, add_const-Extends}
use yacl_r.Snark.Builder.Values.{value}
use yacl_r.Snark.Builder.Denotes.{Denotes, move, add-Denotes, mul-Denotes, add_const-Denotes}
use yacl_r.Snark.Gadgets.{mimc_round, mimc_rounds, mimc_hash}

abbrev pub power : ℤ → ℕ → ℤ
power x zero = pos 1
power x (suc n) = power x n *ℤ x

-- `n` rounds from round `r` on, of which round `r` takes s to (s + r) ^ 7 + key.
abbrev pub permuted : ℤ → ℕ → ℕ → ℤ → ℤ
permuted key zero r s = s
permuted key (suc n) r s = permuted key n (r + 1) (power (s +ℤ pos r) 7 +ℤ key)

-- The seventh power by four products.
power_by_four : (x : ℤ) → x *ℤ x *ℤ (x *ℤ x) *ℤ (x *ℤ x) *ℤ x ≡ power x 7
power_by_four x =
    ap (λ t. t *ℤ (x *ℤ x) *ℤ x) (sym (*ℤ_assoc (x *ℤ x) x x))
    ∙ ap (λ t. t *ℤ x) (sym (*ℤ_assoc (x *ℤ x *ℤ x *ℤ x) x x))
    ∙ ap (λ t. t *ℤ x *ℤ x *ℤ x *ℤ x *ℤ x *ℤ x) (sym (one-*ℤ x))

module _ (p : ℕ) (f : ℕ → ℤ) (p_pos : 0 < p) (one : f 0 ≡ pos 1) where
  module _ (key state : ℕ) (k s : ℤ) (cb : CircuitBuilder) (dk : Denotes p f p_pos one cb key k)
      (ds : Denotes p f p_pos one cb state s) where
    mimc_round-Denotes :
        Extends cb (mimc_round key state cb).1
        × Denotes p f p_pos one
            (mimc_round key state cb).1
            (mimc_round key state cb).0
            (power s 7 +ℤ k)
    unfolding mimc_round
    mimc_round-Denotes =
        let x2 = mul state state cb in
        let x4 = mul x2.0 x2.0 x2.1 in
        let x6 = mul x4.0 x2.0 x4.1 in
        let x7 = mul x6.0 state x6.1 in
        let out = add x7.0 key x7.1 in
        let e2 = mul-Extends state state cb in
        let e4 = mul-Extends x2.0 x2.0 x2.1 in
        let e6 = mul-Extends x4.0 x2.0 x4.1 in
        let e7 = mul-Extends x6.0 state x6.1 in
        let to_6 = trans cb x2.1 x6.1 e2 (trans x2.1 x4.1 x6.1 e4 e6) in
        let to_7 = trans cb x6.1 x7.1 to_6 e7 in
        let d2 = mul-Denotes p f p_pos one cb state state s s ds ds in
        let d4 = mul-Denotes p f p_pos one x2.1 x2.0 x2.0 (s *ℤ s) (s *ℤ s) d2 d2 in
        let d6 =
          mul-Denotes p f p_pos one x4.1 x4.0 x2.0 _ (s *ℤ s) d4
            (move p f p_pos one x2.1 x4.1 x2.0 (s *ℤ s) e4 d2) in
        let d7 =
          mul-Denotes p f p_pos one x6.1 x6.0 state _ s d6
            (move p f p_pos one cb x6.1 state s to_6 ds) in
        (
          trans cb x7.1 out.1 to_7 (add-Extends x7.0 key x7.1),
          subst (λ t. Denotes p f p_pos one out.1 out.0 (t +ℤ k)) (power_by_four s)
              (add-Denotes p f p_pos one x7.1 x7.0 key _ k d7
                (move p f p_pos one cb x7.1 key k to_7 dk)),
        )

  mimc_rounds-Denotes :
      (key n r state : ℕ) (k s : ℤ) (cb : CircuitBuilder)
      → Denotes p f p_pos one cb key k
      → Denotes p f p_pos one cb state s
      → Denotes p f p_pos one
          (mimc_rounds key n r state cb).1
          (mimc_rounds key n r state cb).0
          (permuted k n r s)
  unfolding mimc_rounds
  mimc_rounds-Denotes key zero r state k s cb dk ds = ds
  mimc_rounds-Denotes key (suc n) zero state k s cb dk ds =
      let (e, d) = mimc_round-Denotes key state k s cb dk ds in
      let next = mimc_round key state cb in
      mimc_rounds-Denotes key n 1 next.0 k (power (s +ℤ pos 0) 7 +ℤ k) next.1
        (move p f p_pos one cb next.1 key k e dk)
        (subst (λ t. Denotes p f p_pos one next.1 next.0 (power t 7 +ℤ k))
          (eq_of_parts s (s +ℤ pos 0) (omega sums)) d)
  mimc_rounds-Denotes key (suc n) (suc r) state k s cb dk ds =
      let added = add_const state (pos (suc r)) cb in
      let e = add_const-Extends state (pos (suc r)) cb in
      let d_added = add_const-Denotes p f p_pos one cb state (pos (suc r)) s ds in
      let moved = move p f p_pos one cb added.1 key k e dk in
      let (e', d) = mimc_round-Denotes key added.0 k (s +ℤ pos (suc r)) added.1 moved d_added in
      let next = mimc_round key added.0 added.1 in
      let positive : ltb 0 (suc r) ≡ true = ground arith in
      rw (positive, mimc_rounds)
        (mimc_rounds-Denotes key n (suc r + 1) next.0 k (power (s +ℤ pos (suc r)) 7 +ℤ k) next.1
          (move p f p_pos one added.1 next.1 key k e' moved) d)

  -- With 1 at the constant wire, `MiMCHash` of two variables of the builder, for a positive number
  -- of rounds, succeeds, and its constraints fail unless the value of its result is, modulo the
  -- modulus, what the rounds 0, 1, 2 and so on make of the sum of the input and the key, where round
  -- r takes s to (s + r) ^ 7 + key. The constant of round r is r, as the code computes it, and not
  -- the r + 1 that the comment in the code names.
  pub mimc_hash_lem :
      (input key rounds : ℕ) (cb : CircuitBuilder)
      → 0 < rounds
      → input < cb.next_var
      → key < cb.next_var
      → (o : ℕ × CircuitBuilder) × (mimc_hash input key rounds cb ≡ ok o)
        × ((all_hold p f o.1.constraints ≡ false)
            ⊎ (value p f o.1 o.0
                ≡ residue p (permuted (val f cb key) rounds 0 (val f cb input +ℤ val f cb key))))
  unfolding mimc_hash
  mimc_hash_lem input key rounds cb h h_input h_key =
      let state = add input key cb in
      let d_key : Denotes p f p_pos one cb key (val f cb key) = record {
        below = h_key;
        means = λ h. refl;
      } in
      let d_input : Denotes p f p_pos one cb input (val f cb input) = record {
        below = h_input;
        means = λ h. refl;
      } in
      let some_rounds : ltb 0 rounds ≡ true = ground arith in
      let o = mimc_rounds key rounds 0 state.0 state.1 in
      let d =
        mimc_rounds-Denotes key rounds 0 state.0 (val f cb key) _ state.1
          (move p f p_pos one cb state.1 key _ (add-Extends input key cb) d_key)
          (add-Denotes p f p_pos one cb input key _ _ d_input d_key) in
      (
        o,
        rw some_rounds refl,
        elim (Bool-cases (all_hold p f o.1.constraints)) [
          | inl holding ↦ inr (d.means holding)
          | inr failing ↦ inl failing
        ],
      )
