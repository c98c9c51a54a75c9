-- ===== src/Snark/Poly/Division/Quotient.antt =====
-- The quotient and the remainder of `DivMod`.
use yacl_r.Base.{
  ℕ, zero, suc, ◌-◌, ◌<◌, ◌≤◌, ◌≡◌, refl, sym, ap, subst, ◌∙◌, [], ◌∷◌, Option, some, arith, length,
  get_elem?, get_elem?-some, take, ltb, Bool-cases, inl, inr,
}
use yacl_r.Base.Int.{
  ℤ, pos, neg_ℤ, ◌+ℤ◌, ◌*ℤ◌, zero-+ℤ, zero-*ℤ, +ℤ-*ℤ, *ℤ-+ℤ, *ℤ_assoc, *ℤ_comm, *ℤ_right_comm,
  neg_ℤ-*ℤ, one-*ℤ, eq_of_parts, sums,
}
use yacl_r.Base.Residue.{residue, sum_residue, product_residue, neg_residue}
use yacl_r.Snark.Mp.{Tommath}
use yacl_r.Snark.Poly.{Poly}
use yacl_r.Snark.Poly.Values.{eval, at_x, at_x-cons, residue-sub_mod, residue-mul_mod}
use yacl_r.Snark.Poly.Division.{sub_row, divide_at, divide}

row_ring :
    (z w y e b x : ℤ)
    → (z +ℤ neg_ℤ (w *ℤ y)) +ℤ (e +ℤ neg_ℤ (w *ℤ b)) *ℤ x
      ≡ (z +ℤ e *ℤ x) +ℤ neg_ℤ (w *ℤ (y +ℤ b *ℤ x))
row_ring z w y e b x =
    rw (+ℤ-*ℤ e (neg_ℤ (w *ℤ b)) x, neg_ℤ-*ℤ (w *ℤ b) x, *ℤ-+ℤ w y (b *ℤ x), *ℤ_assoc w b x)
      (eq_of_parts _ _ (omega sums))

step_ring :
    (c q b v r x : ℤ)
    → (c +ℤ q *ℤ x) *ℤ b +ℤ (v +ℤ r *ℤ x +ℤ neg_ℤ (c *ℤ b)) ≡ v +ℤ (q *ℤ b +ℤ r) *ℤ x
step_ring c q b v r x =
    rw (+ℤ-*ℤ c (q *ℤ x) b, +ℤ-*ℤ (q *ℤ b) r x, *ℤ_right_comm q x b) (eq_of_parts _ _ (omega sums))

-- The coefficients from index `n` on are multiples of `p`.
abbrev pub HighZero : ℕ → ℕ → Poly → Type 0
HighZero p n [] = Unit {0}
HighZero p zero (c ∷ r) = (residue p c ≡ residue p (pos 0)) × HighZero p zero r
HighZero p (suc n) (c ∷ r) = HighZero p n r

HighZero-short : (p n : ℕ) (f : Poly) → length f ≤ n → HighZero p n f
HighZero-short p n [] h = tt
HighZero-short p zero (c ∷ r) h = absurd (omega arith)
HighZero-short p (suc n) (c ∷ r) h = HighZero-short p n r (omega arith)

module _ (lib : Tommath) (p : ℕ) (p_pos : 0 < p) (x : ℤ) where
  abbrev pub value : Poly → ℕ
  value f = at_x lib p p_pos x f

  -- The coefficients below `n` make the value.
  pub value-take : (n : ℕ) (f : Poly) → HighZero p n f → value (take n f) ≡ value f
  value-take zero [] h = refl
  value-take (suc n) [] h = refl
  value-take zero (c ∷ r) (h, hs) = sym (
      at_x-cons lib p p_pos x c (pos 0) r (pos 0) h (sym (value-take zero r hs))
      ∙ ap (residue p) (zero-+ℤ _ ∙ zero-*ℤ x))
  value-take (suc n) (c ∷ r) h =
      at_x-cons lib p p_pos x c c (take n r) (eval r x) refl (value-take n r h)

  sub_row-value :
      (c : ℤ) (b rem : Poly)
      → length b ≤ length rem
      → (f : Poly) × (sub_row lib (pos p) c b rem ≡ some f)
        × (length f ≡ length rem)
        × (value f ≡ residue p (eval rem x +ℤ neg_ℤ (c *ℤ eval b x)))
  unfolding sub_row
  sub_row-value c [] rem h = (
    rem,
    refl,
    refl,
    ap (residue p) (
        sym (
          ap (λ t. eval rem x +ℤ neg_ℤ t) (*ℤ_comm c (pos 0) ∙ zero-*ℤ c)
          ∙ eq_of_parts (eval rem x +ℤ neg_ℤ (pos 0)) (eval rem x) (omega sums))),
  )
  sub_row-value c (y ∷ b) [] h = absurd (omega arith)
  sub_row-value c (y ∷ b) (z ∷ rem) h =
      let (f, gives, len, hf) = sub_row-value c b rem (omega arith) in
      (
        _ ∷ f,
        rw (gives, sub_row) refl,
        ap suc len,
        at_x-cons lib p p_pos x _ (z +ℤ neg_ℤ (c *ℤ y)) f (eval rem x +ℤ neg_ℤ (c *ℤ eval b x))
              (residue-sub_mod lib p p_pos x z _
                ∙ sum_residue p z _ z _ p_pos refl
                    (neg_residue p _ _ p_pos (residue-mul_mod lib p p_pos x c y)))
              hf
            ∙ ap (residue p) (row_ring z c y (eval rem x) (eval b x) x),
      )

  -- After the row the coefficient at the end of `b` vanishes too.
  sub_row-HighZero :
      (c : ℤ) (k : ℕ) (b rem f : Poly) (top lead : ℤ)
      → length b ≤ length rem
      → length b ≡ suc k
      → sub_row lib (pos p) c b rem ≡ some f
      → get_elem? rem k ≡ some top
      → get_elem? b k ≡ some lead
      → residue p top ≡ residue p (c *ℤ lead)
      → HighZero p (suc k) rem
      → HighZero p k f
  unfolding sub_row
  sub_row-HighZero c k [] rem f top lead le hb gives at_top at_lead same high = absurd (omega arith)
  sub_row-HighZero c k (y ∷ b) [] f top lead le hb gives at_top at_lead same high =
      absurd (omega arith)
  sub_row-HighZero c zero (y ∷ d ∷ b) (z ∷ rem) f top lead le hb gives at_top at_lead same high =
      absurd (omega arith)
  sub_row-HighZero c zero (y ∷ []) (z ∷ rem) f top lead le hb gives at_top at_lead same high =
      subst (HighZero p zero) (poly-inj gives) (
        residue-sub_mod lib p p_pos x z _
            ∙ sum_residue p z _ (c *ℤ y) (neg_ℤ (c *ℤ y)) p_pos
                (ap (residue p) (int-inj at_top)
                  ∙ same
                  ∙ ap (λ t. residue p (c *ℤ t)) (sym (int-inj at_lead)))
                (neg_residue p _ _ p_pos (residue-mul_mod lib p p_pos x c y))
            ∙ ap (residue p) (eq_of_parts (c *ℤ y +ℤ neg_ℤ (c *ℤ y)) (pos 0) (omega sums)),
        high,
      )
    where
      poly-inj : {g h : Poly} → some g ≡ some h → g ≡ h
      poly-inj e = ground arith

      int-inj : {g h : ℤ} → some g ≡ some h → g ≡ h
      int-inj e = ground arith
  sub_row-HighZero c (suc k) (y ∷ b) (z ∷ rem) f top lead le hb gives at_top at_lead same high =
      let (g, rest, len, value_g) = sub_row-value c b rem (omega arith) in
      let tail_high : HighZero p k g =
        sub_row-HighZero c k b rem g top lead (omega arith) (omega arith) rest at_top at_lead same
          high in
      let first = lib.sub_mod z (lib.mul_mod c y (pos p)) (pos p) in
      let whole : sub_row lib (pos p) c (y ∷ b) (z ∷ rem) ≡ some (first ∷ g) =
        rw (rest, sub_row) refl in
      subst (HighZero p (suc k)) (poly-inj (sym whole ∙ gives)) tail_high
    where
      poly-inj : {g h : Poly} → some g ≡ some h → g ≡ h
      poly-inj e = ground arith

  -- `a = quotient * b + remainder` at `x`, where the remainder has the length of `a`.
  pub record Divides (k : ℕ) (b a : Poly) (out : Option (Poly × Poly)) : Type 0 where
    pub quotient : Poly
    pub remainder : Poly
    pub gives : out ≡ some (quotient, remainder)
    pub same_length : length remainder ≡ length a
    pub high : HighZero p k remainder
    pub short : length a < length b → quotient ≡ []
    pub sum : value a ≡ residue p (eval quotient x *ℤ eval b x +ℤ eval remainder x)

  module _ (k : ℕ) (b : Poly) (lead inverse : ℤ) (hb : length b ≡ suc k)
      (at_lead : get_elem? b k ≡ some lead)
      (inverts : residue p (lead *ℤ inverse) ≡ residue p (pos 1)) where
    divide_at-Divides :
        (v : ℤ) (a q r : Poly)
        → length b ≤ length (v ∷ r)
        → length r ≡ length a
        → HighZero p k r
        → value a ≡ residue p (eval q x *ℤ eval b x +ℤ eval r x)
        → Divides k b (v ∷ a) (divide_at lib (pos p) b inverse q (v ∷ r))
    unfolding divide_at
    divide_at-Divides v a q r fits len high sum =
        let (top, at_top) = get_elem?-some (v ∷ r) k (omega arith) in
        let c = lib.mul_mod top inverse (pos p) in
        let at_top' : get_elem? (v ∷ r) (length b - 1) ≡ some top =
          ap (get_elem? (v ∷ r)) (omega (arith, hb)) ∙ at_top in
        let (f, row, row_length, hf) = sub_row-value c b (v ∷ r) fits in
        let cancels : residue p top ≡ residue p (c *ℤ lead) = sym (
          product_residue p c lead (top *ℤ inverse) lead p_pos
            (residue-mul_mod lib p p_pos x top inverse) refl
          ∙ ap (residue p) (*ℤ_assoc top inverse lead ∙ ap (λ t. top *ℤ t) (*ℤ_comm inverse lead))
          ∙ product_residue p top _ top (pos 1) p_pos refl inverts
          ∙ ap (residue p) (*ℤ_comm top (pos 1) ∙ one-*ℤ top)) in
        record {
          quotient = c ∷ q;
          remainder = f;
          gives = rw (at_top', divide_at) (rw (row, divide_at) refl);
          same_length = row_length ∙ ap suc len;
          high = sub_row-HighZero c k b (v ∷ r) f top lead fits hb row at_top at_lead cancels high;
          short = λ less. absurd (omega (arith, len));
          sum =
              at_x-cons lib p p_pos x v v a _ refl sum
              ∙ ap (residue p) (sym (step_ring c (eval q x) (eval b x) v (eval r x) x))
              ∙ sum_residue p _ _ ((c +ℤ eval q x *ℤ x) *ℤ eval b x) (eval f x) p_pos refl (sym hf);
        }

    pub divide-Divides : (a : Poly) → Divides k b a (divide lib (pos p) b inverse a)
    unfolding divide
    divide-Divides [] = record {
      quotient = [];
      remainder = [];
      gives = refl;
      same_length = refl;
      high = tt;
      short = λ less. refl;
      sum = ap (residue p) (sym (ap (λ t. t +ℤ pos 0) (zero-*ℤ (eval b x)) ∙ zero-+ℤ (pos 0)));
    }
    divide-Divides (v ∷ a) =
        let rest = divide-Divides a in
        elim (Bool-cases (ltb (length (v ∷ a)) (length b))) [
          | inl short ↦
              let less : length (v ∷ a) < length b = ground (arith, short) in
              let none_yet : rest.quotient ≡ [] = rest.short (omega arith) in
              rw (rest.gives, divide)
                (rw short (record {
                  quotient = rest.quotient;
                  remainder = v ∷ rest.remainder;
                  gives = refl;
                  same_length = ap suc rest.same_length;
                  high =
                      HighZero-short p k (v ∷ rest.remainder) (omega (arith, rest.same_length, hb));
                  short = λ h. none_yet;
                  sum =
                      at_x-cons lib p p_pos x v v a _ refl rest.sum
                      ∙ ap (residue p)
                          (no_quotient v rest.quotient (eval rest.remainder x) none_yet);
                }))
          | inr long ↦
              rw (rest.gives, divide)
                (rw long (
                  divide_at-Divides v a rest.quotient rest.remainder
                    (ground (arith, long, rest.same_length)) rest.same_length rest.high rest.sum))
        ]
      where
        no_quotient :
            (v : ℤ) (q : Poly) (r : ℤ)
            → q ≡ []
            → v +ℤ (eval q x *ℤ eval b x +ℤ r) *ℤ x ≡ eval q x *ℤ eval b x +ℤ (v +ℤ r *ℤ x)
        no_quotient v q r h =
            let vanishes : eval q x *ℤ eval b x ≡ pos 0 =
              ap (λ t. eval t x *ℤ eval b x) h ∙ zero-*ℤ (eval b x) in
            rw vanishes (ap (λ t. v +ℤ t *ℤ x) (zero-+ℤ r) ∙ sym (zero-+ℤ (v +ℤ r *ℤ x)))
