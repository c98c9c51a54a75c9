-- ===== src/Snark/Gadgets/Bits/Order.antt =====
-- What `RangeCheck` and `LessThan` show of a variable's value.
use yacl_r.Base.{
  ℕ, zero, suc, ◌+◌, ◌-◌, ◌%◌, ◌^◌, ◌<◌, ◌≤◌, ◌≡◌, ◌⊎◌, inl, inr, refl, sym, ap, subst, ◌∙◌, Bool,
  true, false, not, ◌&&◌, List, [], ◌∷◌, some, ok, if◌then◌else◌, arith, length, get_elem?, leb,
  ltb, Bool-cases,
}
use native.Mathlib.Nat.{mod-eq_of_lt, mod-le, two-pow-succ}
use yacl_r.Base.Int.{ℤ, pos, negsuc, ◌+ℤ◌, eq_of_parts, sums}
use yacl_r.Base.Residue.{residue, residue-lt}
use yacl_r.Snark.R1cs.Values.{all_hold}
use yacl_r.Snark.Builder.{CircuitBuilder, add_const, mul_const, sub}
use yacl_r.Snark.Builder.Linear.{val}
use yacl_r.Snark.Builder.Extends.{Extends, trans, earlier, add_const-Extends, mul_const-Extends}
use yacl_r.Snark.Builder.Values.{value}
use yacl_r.Base.Inverse.{IsPrime}
use yacl_r.Snark.Builder.Denotes.{Denotes, move, sub-Denotes, add_const-Denotes}
use yacl_r.Snark.Gadgets.{bool_not, range_check, less_than}
use yacl_r.Snark.Gadgets.Logic.{bit, not_bit, bool_not-Denotes}
use yacl_r.Snark.Gadgets.Bits.{
  number, number-lt, AllDenote, to_bits-Denote, residue-pos, residue-bit,
}

-- The last of the bits tells whether the number reaches its power of 2.
high_bit :
    (bs : List Bool) (n : ℕ) → length bs ≡ suc n → get_elem? bs n ≡ some (leb (2 ^ n) (number bs))
high_bit [] n h = absurd (omega arith)
high_bit (b ∷ []) zero h = ground arith
high_bit (b ∷ c ∷ bs) zero h = absurd (omega arith)
high_bit (b ∷ bs) (suc n) h =
    high_bit bs n (omega arith) ∙ ap some (rw (two-pow-succ n) (ground arith))

-- Where `2 ^ n + a - b` is `m`, the high bit of `m` tells that `a` is not below `b`.
compared :
    (p n a b m : ℕ)
    → 2 ^ (n + 1) ≤ p
    → a < 2 ^ n
    → b < 2 ^ n
    → m < 2 ^ (n + 1)
    → (a + 2 ^ n - b) % p ≡ m % p
    → not (leb (2 ^ n) m) ≡ ltb a b
compared p n a b m wide ha hb hm h =
    let double : 2 ^ (n + 1) ≡ 2 ^ n + 2 ^ n = ap (λ t. 2 ^ t) next ∙ two-pow-succ n in
    let whole : (a + 2 ^ n - b) % p ≡ a + 2 ^ n - b =
      mod-eq_of_lt (omega (arith, double, wide, ha, hb)) in
    let same : m % p ≡ m = mod-eq_of_lt (omega (arith, hm, wide)) in
    let exact : a + 2 ^ n - b ≡ m = sym whole ∙ h ∙ same in ground (arith, exact, hb)
  where
    next : n + 1 ≡ suc n
    next = omega arith

bool_not-Extends : (a : ℕ) (cb : CircuitBuilder) → Extends cb (bool_not a cb).1
unfolding bool_not
bool_not-Extends a cb =
    trans cb (mul_const a (negsuc 0) cb).1 _ (mul_const-Extends a (negsuc 0) cb)
      (add_const-Extends _ (pos 1) _)

module _ (p : ℕ) (f : ℕ → ℤ) (p_pos : 0 < p) (one : f 0 ≡ pos 1) where
  AllDenote-get :
      (cb : CircuitBuilder) (vs : List ℕ) (bs : List Bool) (i : ℕ) (b : Bool)
      → AllDenote p f p_pos one cb vs bs
      → get_elem? bs i ≡ some b
      → (v : ℕ) × (get_elem? vs i ≡ some v) × Denotes p f p_pos one cb v (bit b)
  AllDenote-get cb [] [] i b ds h = absurd (ground arith)
  AllDenote-get cb [] (c ∷ bs) i b ds h = absurd ds
  AllDenote-get cb (v ∷ vs) [] i b ds h = absurd ds
  AllDenote-get cb (v ∷ vs) (c ∷ bs) zero b (d, ds) h =
      (v, refl, subst (λ t. Denotes p f p_pos one cb v (bit t)) (ground arith) d)
  AllDenote-get cb (v ∷ vs) (c ∷ bs) (suc i) b (d, ds) h = AllDenote-get cb vs bs i b ds h

  -- Modulo a prime, with 1 at the constant wire, `RangeCheck` of a variable of the builder for a
  -- positive number of bits succeeds, and its constraints fail unless the value of the variable
  -- has that many bits.
  pub range_check_lem :
      (var n : ℕ) (cb : CircuitBuilder)
      → IsPrime p
      → 0 < n
      → var < cb.next_var
      → (o : Unit {0} × CircuitBuilder) × (range_check var n cb ≡ ok o)
        × ((all_hold p f o.1.constraints ≡ false) ⊎ (value p f cb var < 2 ^ n))
  unfolding range_check
  range_check_lem var n cb prime h below =
      let (o, bs, gives, len, e, ds, same) =
        to_bits-Denote p f p_pos one var n cb (val f cb var) prime h
          (record { below = below; means = λ h. refl }) in
      (
        (tt, o.1),
        rw (gives, range_check) refl,
        elim (Bool-cases (all_hold p f o.1.constraints)) [
          | inl holding ↦ inr (bounded (value p f cb var) bs (same holding) len)
          | inr failing ↦ inl failing
        ],
      )
    where
      bounded : (x : ℕ) (bs : List Bool) → x ≡ number bs % p → length bs ≡ n → x < 2 ^ n
      bounded x bs h len =
          let small : number bs < 2 ^ n = subst (λ t. number bs < 2 ^ t) len (number-lt bs) in
          omega (arith, h, small, mod-le (number bs) p)

  -- The variable that stands for `2 ^ n + a - b`.
  difference-Denotes :
      (a b n : ℕ) (cb : CircuitBuilder)
      → a < cb.next_var
      → b < cb.next_var
      → value p f cb b < 2 ^ n
      → (let plus = add_const a (pos (2 ^ n)) cb in
          let diff = sub plus.0 b plus.1 in
          Denotes p f p_pos one diff.1 diff.0 (pos (value p f cb a + 2 ^ n - value p f cb b)))
  difference-Denotes a b n cb ha hb small =
      let plus = add_const a (pos (2 ^ n)) cb in
      let diff = sub plus.0 b plus.1 in
      let va = value p f cb a in
      let vb = value p f cb b in
      let d_plus = add_const-Denotes p f p_pos one cb a (pos (2 ^ n)) (pos va) (itself a ha) in
      let d_b =
        move p f p_pos one cb plus.1 b (pos vb) (add_const-Extends a (pos (2 ^ n)) cb)
          (itself b hb) in
      subst (Denotes p f p_pos one diff.1 diff.0) (eq_of_parts _ _ (omega (sums, small)))
        (sub-Denotes p f p_pos one plus.1 plus.0 b (pos va +ℤ pos (2 ^ n)) (pos vb) d_plus d_b)
    where
      itself : (v : ℕ) → v < cb.next_var → Denotes p f p_pos one cb v (pos (value p f cb v))
      itself v h = record {
        below = h;
        means = λ k.
            sym (residue-pos p (value p f cb v) ∙ mod-eq_of_lt (residue-lt p (val f cb v) p_pos));
      }

  -- For 0 < n < 253 and modulo a prime of at least 2 ^ (n + 1), with 1 at the constant wire,
  -- `LessThan` of variables of the builder with n-bit values succeeds, and its constraints fail
  -- unless its result is 1 for a smaller first value and 0 otherwise.
  pub less_than_lem :
      (a b n : ℕ) (cb : CircuitBuilder)
      → IsPrime p
      → 0 < n
      → n < 253
      → 2 ^ (n + 1) ≤ p
      → a < cb.next_var
      → b < cb.next_var
      → value p f cb a < 2 ^ n
      → value p f cb b < 2 ^ n
      → (o : ℕ × CircuitBuilder) × (less_than a b n cb ≡ ok o)
        × ((all_hold p f o.1.constraints ≡ false)
            ⊎ (value p f o.1 o.0 ≡ (if ltb (value p f cb a) (value p f cb b) then 1 else 0)))
  unfolding less_than
  less_than_lem a b n cb prime n_pos n_small wide ha hb a_small b_small =
      let plus = add_const a (pos (2 ^ n)) cb in
      let diff = sub plus.0 b plus.1 in
      let va = value p f cb a in
      let vb = value p f cb b in
      let in_range : (ltb 0 n && ltb n 253) ≡ true = ground arith in
      let (o, bs, gives, len, e, ds, same) =
        to_bits-Denote p f p_pos one diff.0 (n + 1) diff.1 (pos (va + 2 ^ n - vb)) prime
          (omega arith) (difference-Denotes a b n cb ha hb b_small) in
      let top = leb (2 ^ n) (number bs) in
      let (v, there, d_high) =
        AllDenote-get o.1 o.0 bs n top ds (high_bit bs n (omega (arith, len))) in
      (
        bool_not v o.1,
        rw (in_range, less_than) (rw (gives, less_than) (rw (there, less_than) refl)),
        elim (Bool-cases (all_hold p f (bool_not v o.1).1.constraints)) [
          | inl holding ↦ inr (
              (bool_not-Denotes p f p_pos one o.1 v (bit top) d_high).means holding
              ∙ ap (residue p) (not_bit top)
              ∙ residue-bit p (not top) prime.0
              ∙ ap (λ t. if t then 1 else 0)
                  (compared p n va vb (number bs) wide a_small b_small
                    (subst (λ t. number bs < 2 ^ t) len (number-lt bs))
                    (sym (residue-pos p (va + 2 ^ n - vb))
                      ∙ same
                          (earlier p f o.1 (bool_not v o.1).1 (bool_not-Extends v o.1) holding))))
          | inr failing ↦ inl failing
        ],
      )
