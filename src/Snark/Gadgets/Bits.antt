-- ===== src/Snark/Gadgets/Bits.antt =====
-- The values of `FromBits`, `ToBits` and `RangeCheck`.
pub mod Order
use yacl_r.Base.{
  ℕ, zero, suc, ◌+◌, ◌-◌, ◌*◌, ◌%◌, ◌^◌, ◌<◌, ◌≤◌, ◌≡◌, ◌⊎◌, inl, inr, refl, sym, ap, ap₂, subst,
  ◌∙◌, Bool, true, false, ◌&&◌, ◌||◌, List, [], ◌∷◌, Option, some, none, Result, ok, err,
  if◌then◌else◌, arith, length, get_elem?, ◌==◌, leb, Bool-cases,
}
use native.Mathlib.Nat.{mod-eq_of_lt, mod-le, two-pow-succ}
use yacl_r.Base.Int.{
  ℤ, pos, negsuc, neg_ℤ, ◌+ℤ◌, ◌*ℤ◌, eq_of_parts, sums, products, one-*ℤ, zero-*ℤ,
}
use yacl_r.Base.Residue.{residue, residue-lt}
use yacl_r.Snark.R1cs.Values.{all_hold}
use yacl_r.Snark.Builder.{
  CircuitBuilder, alloc_private, assert_boolean, assert_equal, add, mul_const,
}
use yacl_r.Snark.Builder.Extends.{
  Extends, Extends-refl, trans, earlier, alloc_private-Extends, alloc_private-below, add-Extends,
  mul_const-Extends, assert_boolean-Extends, assert_equal-Extends,
}
use yacl_r.Snark.Builder.Values.{value, value-kept}
use yacl_r.Base.Inverse.{IsPrime}
use yacl_r.Snark.Builder.Asserts.{assert_boolean_lem, assert_equal_lem}
use yacl_r.Snark.Builder.Denotes.{Denotes, move, add-Denotes, mul_const-Denotes}
use yacl_r.Snark.Gadgets.{boolean, pack, from_bits, booleans, to_bits, range_check}
use yacl_r.Snark.Gadgets.Logic.{bit}

-- The number with the bits `bs`, the lowest first.
abbrev pub number : List Bool → ℕ
number [] = 0
number (b ∷ bs) = (if b then 1 else 0) + 2 * number bs

pub number-lt : (bs : List Bool) → number bs < 2 ^ length bs
number-lt [] = omega arith
number-lt (b ∷ bs) =
    subst (λ t. number (b ∷ bs) < t) (sym (two-pow-succ (length bs))) (ground (arith, number-lt bs))

-- What is added to `r` for bits that stand for multiples of `w`.
abbrev pub packed : List Bool → ℤ → ℤ → ℤ
packed [] w r = r
packed (b ∷ bs) w r = packed bs (w *ℤ pos 2) (r +ℤ bit b *ℤ w)

packed-number : (bs : List Bool) (w r : ℕ) → packed bs (pos w) (pos r) ≡ pos (r + w * number bs)
packed-number [] w r = ap pos (omega arith)
packed-number (b ∷ bs) w r =
    ap₂ (packed bs) (doubled w) (shifted b)
    ∙ packed-number bs (w * 2) (r + (if b then 1 else 0) * w)
    ∙ ap pos (omega arith)
  where
    doubled : (w : ℕ) → pos w *ℤ pos 2 ≡ pos (w * 2)
    doubled w = eq_of_parts _ _ (simp products (omega arith))

    shifted : (b : Bool) → pos r +ℤ bit b *ℤ pos w ≡ pos (r + (if b then 1 else 0) * w)
    shifted true = ap (λ t. pos r +ℤ t) (one-*ℤ (pos w)) ∙ eq_of_parts _ _ (omega sums)
    shifted false = ap (λ t. pos r +ℤ t) (zero-*ℤ (pos w)) ∙ eq_of_parts _ _ (omega sums)

pub residue-pos : (p m : ℕ) → residue p (pos m) ≡ m % p
unfolding residue
residue-pos p m = refl

pub residue-bit : (p : ℕ) (b : Bool) → 1 < p → residue p (bit b) ≡ (if b then 1 else 0)
unfolding residue
residue-bit p true h = mod-eq_of_lt h
residue-bit p false h = mod-eq_of_lt (omega arith)

module _ (p : ℕ) (f : ℕ → ℤ) (p_pos : 0 < p) (one : f 0 ≡ pos 1) where
  abbrev pub AllDenote : CircuitBuilder → List ℕ → List Bool → Type 0
  AllDenote cb [] [] = Unit {0}
  AllDenote cb [] (b ∷ bs) = ⊥
  AllDenote cb (v ∷ vs) [] = ⊥
  AllDenote cb (v ∷ vs) (b ∷ bs) = Denotes p f p_pos one cb v (bit b) × AllDenote cb vs bs

  move_all :
      (cb cb' : CircuitBuilder) (vs : List ℕ) (bs : List Bool)
      → Extends cb cb'
      → AllDenote cb vs bs
      → AllDenote cb' vs bs
  move_all cb cb' [] [] e d = tt
  move_all cb cb' [] (b ∷ bs) e d = absurd d
  move_all cb cb' (v ∷ vs) [] e d = absurd d
  move_all cb cb' (v ∷ vs) (b ∷ bs) e (d, ds) =
      (move p f p_pos one cb cb' v (bit b) e d, move_all cb cb' vs bs e ds)

  pack-Denotes :
      (cb : CircuitBuilder) (vs : List ℕ) (bs : List Bool) (w r : ℤ) (result : ℕ)
      → AllDenote cb vs bs
      → Denotes p f p_pos one cb result r
      → Extends cb (pack vs w result cb).1
        × Denotes p f p_pos one (pack vs w result cb).1 (pack vs w result cb).0 (packed bs w r)
  unfolding pack
  pack-Denotes cb [] [] w r result ds d = (Extends-refl cb, d)
  pack-Denotes cb [] (b ∷ bs) w r result ds d = absurd ds
  pack-Denotes cb (v ∷ vs) [] w r result ds d = absurd ds
  pack-Denotes cb (v ∷ vs) (b ∷ bs) w r result (dv, ds) d =
      let scaled = mul_const v w cb in
      let sum = add result scaled.0 scaled.1 in
      let e1 = mul_const-Extends v w cb in
      let e2 = add-Extends result scaled.0 scaled.1 in
      let e = trans cb scaled.1 sum.1 e1 e2 in
      let d_sum =
        add-Denotes p f p_pos one scaled.1 result scaled.0 r (bit b *ℤ w)
          (move p f p_pos one cb scaled.1 result r e1 d)
          (mul_const-Denotes p f p_pos one cb v w (bit b) dv) in
      let (e', d') =
        pack-Denotes sum.1 vs bs (w *ℤ pos 2) (r +ℤ bit b *ℤ w) sum.0 (move_all cb sum.1 vs bs e ds)
          d_sum in
      (trans cb sum.1 _ e e', d')

  -- A new Boolean variable denotes the bit that it is.
  boolean-Denotes :
      (cb : CircuitBuilder)
      → IsPrime p
      → (b : Bool) × Extends cb (boolean cb).1
        × Denotes p f p_pos one (boolean cb).1 (boolean cb).0 (bit b)
  unfolding boolean
  boolean-Denotes cb prime =
      let cb' = (alloc_private cb).1 in
      let v = (alloc_private cb).0 in
      let e = assert_boolean-Extends v cb' in
      let x = value p f cb' v in
      (
        x == 1,
        trans cb cb' (assert_boolean v cb').1 (alloc_private-Extends cb) e,
        record {
          below = omega (arith, e.grown, alloc_private-below cb);
          means = λ h.
              value-kept p f p_pos one cb' (assert_boolean v cb').1 v e (alloc_private-below cb)
              ∙ is_bit (all_hold p f cb'.constraints) x
                  (sym (assert_boolean_lem p f p_pos one cb' v prime) ∙ h);
        },
      )
    where
      is_bit :
          (rest : Bool) (x : ℕ)
          → (rest && ((x == 0) || (x == 1))) ≡ true
          → x ≡ residue p (bit (x == 1))
      is_bit rest x h = elim (Bool-cases (x == 1)) [
        | inl e ↦ rw e (ground (arith, e) ∙ sym (residue-bit p true prime.0))
        | inr e ↦ rw e (ground (arith, h, e) ∙ sym (residue-bit p false prime.0))
      ]

  booleans-Denote :
      (n : ℕ) (cb : CircuitBuilder)
      → IsPrime p
      → (bs : List Bool) × (length bs ≡ n)
        × Extends cb (booleans n cb).1
        × AllDenote (booleans n cb).1 (booleans n cb).0 bs
  unfolding booleans
  booleans-Denote zero cb prime = ([], refl, Extends-refl cb, tt)
  booleans-Denote (suc n) cb prime =
      let (b, e, d) = boolean-Denotes cb prime in
      let (bs, len, e', ds) = booleans-Denote n (boolean cb).1 prime in
      (
        b ∷ bs,
        ap suc len,
        trans cb (boolean cb).1 _ e e',
        (move p f p_pos one (boolean cb).1 _ (boolean cb).0 (bit b) e' d, ds),
      )

  from_bits-Denotes :
      (cb : CircuitBuilder) (vs : List ℕ) (bs : List Bool)
      → 0 < length bs
      → AllDenote cb vs bs
      → (o : ℕ × CircuitBuilder) × (from_bits vs cb ≡ ok o)
        × Extends cb o.1
        × Denotes p f p_pos one o.1 o.0 (pos (number bs))
  unfolding from_bits
  from_bits-Denotes cb [] [] h ds = absurd (omega arith)
  from_bits-Denotes cb [] (b ∷ bs) h ds = absurd ds
  from_bits-Denotes cb (v ∷ vs) [] h ds = absurd ds
  from_bits-Denotes cb (v ∷ vs) (b ∷ bs) h (d, ds) =
      let (e, d') = pack-Denotes cb vs bs (pos 2) (bit b) v ds d in
      (
        pack vs (pos 2) v cb,
        refl,
        e,
        subst (λ t. Denotes p f p_pos one (pack vs (pos 2) v cb).1 (pack vs (pos 2) v cb).0 t)
            (sum b) d',
      )
    where
      sum : (b : Bool) → packed bs (pos 2) (bit b) ≡ pos (number (b ∷ bs))
      sum true = packed-number bs 2 1
      sum false = packed-number bs 2 0

  -- What `ToBits` gives.
  pub to_bits-Denote :
      (var n : ℕ) (cb : CircuitBuilder) (x : ℤ)
      → IsPrime p
      → 0 < n
      → Denotes p f p_pos one cb var x
      → (o : List ℕ × CircuitBuilder) × (bs : List Bool) × (to_bits var n cb ≡ ok o)
        × (length bs ≡ n)
        × Extends cb o.1
        × AllDenote o.1 o.0 bs
        × (all_hold p f o.1.constraints ≡ true → residue p x ≡ number bs % p)
  unfolding to_bits
  to_bits-Denote var n cb x prime h d =
      let (bs, len, e, ds) = booleans-Denote n cb prime in
      let (o, gives, e', packed_d) =
        from_bits-Denotes (booleans n cb).1 (booleans n cb).0 bs (omega (arith, len)) ds in
      let out = (assert_equal o.0 var o.1).1 in
      let ea = assert_equal-Extends o.0 var o.1 in
      let before = trans cb (booleans n cb).1 o.1 e e' in
      let some_bits : (n == 0) ≡ false = ground arith in
      (
        ((booleans n cb).0, out),
        bs,
        rw (some_bits, gives) refl,
        len,
        trans cb o.1 out before ea,
        move_all (booleans n cb).1 out (booleans n cb).0 bs (trans _ o.1 out e' ea) ds,
        λ holding.
            let both = sym (assert_equal_lem p f p_pos one o.1 o.0 var) ∙ holding in
            let (earlier_hold, same) = split both in
            sym ((move p f p_pos one cb o.1 var x before d).means earlier_hold)
            ∙ sym same
            ∙ packed_d.means earlier_hold
            ∙ residue-pos p (number bs),
      )
    where
      split : {c : Bool} {m k : ℕ} → (c && (m == k)) ≡ true → (c ≡ true) × (m ≡ k)
      split h = (ground arith, ground arith)
