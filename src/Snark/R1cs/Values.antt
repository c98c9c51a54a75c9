-- ===== src/Snark/R1cs/Values.antt =====
-- What linear combinations and constraints stand for.
use yacl_r.Base.{
  ℕ, ◌+◌, ◌*◌, ◌%◌, ◌<◌, ◌≡◌, refl, sym, ap, ap₂, subst, ◌∙◌, Bool, true, ◌&&◌, List, [], ◌∷◌, none,
  some, arith, ok, ltb, ◌==◌, length, get_elem?, get_elem?-some, Bool-cases, inl, inr,
}
use native.Mathlib.Nat.{mod-eq_of_lt, mod-add-mod, add-mod-mod}
use yacl_r.Base.Int.{
  ℤ, pos, ◌+ℤ◌, ◌*ℤ◌, is_zero, is_one, is_zero-eq, +ℤ-*ℤ, zero-*ℤ, zero-+ℤ, eq_of_parts, sums,
}
use yacl_r.Base.Residue.{residue, residue-+ℤ, residue-*ℤ, residue-lt}
use yacl_r.Snark.Mp.{Tommath}
use yacl_r.Snark.R1cs.{
  LinearCombination, add_term, R1csConstraint, R1csSystem, same_ℤ, eval_terms, evaluate,
  check_constraints, is_satisfied,
}

-- The integer that a combination stands for, where the variables have the values `f`.
abbrev pub dot : (ℕ → ℤ) → LinearCombination → ℤ
dot f [] = pos 0
dot f ((v, c) ∷ r) = c *ℤ f v +ℤ dot f r

-- A term of coefficient zero counts for nothing.
zero_term : (c x y : ℤ) → is_zero c ≡ true → y ≡ c *ℤ x +ℤ y
zero_term c x y h =
    sym (ap (λ t. t *ℤ x +ℤ y) (is_zero-eq c h) ∙ ap (λ t. t +ℤ y) (zero-*ℤ x) ∙ zero-+ℤ y)

-- `AddTerm` adds the term's value, also where it merges or cancels one.
pub dot-add_term :
    (f : ℕ → ℤ) (v : ℕ) (c : ℤ) (lc : LinearCombination)
    → dot f (add_term v c lc) ≡ c *ℤ f v +ℤ dot f lc
unfolding add_term
dot-add_term f v c [] = elim (Bool-cases (is_zero c)) [
  | inl e ↦ rw e (zero_term c (f v) (pos 0) e)
  | inr e ↦ rw e refl
]
dot-add_term f v c ((u, x) ∷ r) = elim (Bool-cases (v == u)) [
  | inl same ↦
      let here : v ≡ u = ground arith in
      let merged : (x +ℤ c) *ℤ f u +ℤ dot f r ≡ c *ℤ f v +ℤ (x *ℤ f u +ℤ dot f r) =
        rw here (rw (+ℤ-*ℤ x c (f u)) (eq_of_parts _ _ (omega sums))) in
      elim (Bool-cases (is_zero (x +ℤ c))) [
        | inl e ↦ rw (same, e) (zero_term (x +ℤ c) (f u) (dot f r) e ∙ merged)
        | inr e ↦ rw (same, e) merged
      ]
  | inr other ↦ elim (Bool-cases (ltb v u)) [
    | inl before ↦ elim (Bool-cases (is_zero c)) [
      | inl e ↦ rw (other, before, e) (zero_term c (f v) _ e)
      | inr e ↦ rw (other, before, e) refl
    ]
    | inr later ↦
        rw (other, later) (let ih = dot-add_term f v c r in rw ih (eq_of_parts _ _ (omega sums)))
  ]
]

-- The value of a variable in a witness.
abbrev pub at : List ℤ → ℕ → ℤ
at witness v = elim (get_elem? witness v) [ none ↦ pos 0 | some x ↦ x ]

at-some :
    (witness : List ℤ) (v : ℕ) → v < length witness → get_elem? witness v ≡ some (at witness v)
at-some witness v h = let (x, there) = get_elem?-some witness v h in ground (arith, there)

abbrev pub VarsBelow : ℕ → LinearCombination → Type 0
VarsBelow n [] = Unit {0}
VarsBelow n ((v, c) ∷ r) = (v < n) × VarsBelow n r

-- The constraint `k` holds modulo `p` where the variables have the values `f`.
abbrev pub holds : ℕ → (ℕ → ℤ) → R1csConstraint → Bool
holds p f k = residue p (dot f k.a *ℤ dot f k.b) == residue p (dot f k.c)

abbrev pub all_hold : ℕ → (ℕ → ℤ) → List R1csConstraint → Bool
all_hold p f [] = true
all_hold p f (k ∷ r) = holds p f k && all_hold p f r

abbrev pub AllBelow : ℕ → List R1csConstraint → Type 0
AllBelow n [] = Unit {0}
AllBelow n (k ∷ r) = VarsBelow n k.a × VarsBelow n k.b × VarsBelow n k.c × AllBelow n r

regroup_mod : (p a b c : ℕ) → a < p → b < p → ((a % p + b % p) % p + c) % p ≡ (a + (b + c) % p) % p
regroup_mod p a b c ha hb =
    rw (mod-eq_of_lt ha, mod-eq_of_lt hb)
      (mod-add-mod (a + b) p c ∙ ap (λ t. t % p) (omega arith) ∙ sym (add-mod-mod a (b + c) p))

module _ (lib : Tommath) (p : ℕ) (p_pos : 0 < p) (witness : List ℤ) where
  eval_terms_lem :
      (acc : ℕ) (lc : LinearCombination)
      → acc < p
      → VarsBelow (length witness) lc
      → eval_terms lib witness (pos p) (pos acc) lc
        ≡ ok (pos ((acc + residue p (dot (at witness) lc)) % p))
  unfolding eval_terms residue
  eval_terms_lem acc [] h below =
      ap (λ t. ok (pos t))
        (sym (
          ap (λ t. (acc + t) % p) (mod-eq_of_lt p_pos)
          ∙ ap (λ t. t % p) (omega arith)
          ∙ mod-eq_of_lt h))
  eval_terms_lem acc ((v, c) ∷ r) h below =
      let x = at witness v in
      let there : get_elem? witness v ≡ some x = at-some witness v below.0 in
      let b = residue p (c *ℤ x) in
      let acc' = (acc % p + b % p) % p in
      let step : lib.add_mod (pos acc) (lib.mul_mod c x (pos p)) (pos p) ≡ pos acc' =
        ap (λ t. lib.add_mod (pos acc) t (pos p)) (lib.mul_mod_lem p c x p_pos)
        ∙ lib.add_mod_lem p (pos acc) (pos b) p_pos
        ∙ ap pos (residue-+ℤ p (pos acc) (pos b) p_pos) in
      rw (there, step, eval_terms)
        (eval_terms_lem acc' r (omega arith) below.1
          ∙ ap (λ t. ok (pos t))
              (regroup_mod p acc b (residue p (dot (at witness) r)) h (residue-lt p (c *ℤ x) p_pos)
                ∙ ap (λ t. (acc + t) % p) (sym (residue-+ℤ p (c *ℤ x) (dot (at witness) r) p_pos))))

  -- `Evaluate` gives the remainder of what the combination stands for.
  pub evaluate_lem :
      (lc : LinearCombination)
      → VarsBelow (length witness) lc
      → evaluate lib witness (pos p) lc ≡ ok (pos (residue p (dot (at witness) lc)))
  unfolding evaluate
  evaluate_lem lc below =
      eval_terms_lem 0 lc p_pos below
      ∙ ap (λ t. ok (pos t))
          (ap (λ t. t % p) (omega arith) ∙ mod-eq_of_lt (residue-lt p (dot (at witness) lc) p_pos))

  check_constraints_lem :
      (ks : List R1csConstraint)
      → AllBelow (length witness) ks
      → check_constraints lib witness (pos p) ks ≡ ok (all_hold p (at witness) ks)
  unfolding check_constraints same_ℤ residue
  check_constraints_lem [] below = refl
  check_constraints_lem (k ∷ r) below =
      let x = dot (at witness) k.a in
      let y = dot (at witness) k.b in
      let product : lib.mul_mod (pos (residue p x)) (pos (residue p y)) (pos p)
          ≡ pos (residue p (x *ℤ y)) =
        lib.mul_mod_lem p (pos (residue p x)) (pos (residue p y)) p_pos
        ∙ ap pos (product_mod x y) in
      rw (evaluate_lem k.a below.0, evaluate_lem k.b below.1, evaluate_lem k.c below.2, product)
        (ground (arith, check_constraints_lem r below.3))
    where
      product_mod :
          (x y : ℤ) → residue p (pos (residue p x) *ℤ pos (residue p y)) ≡ residue p (x *ℤ y)
      product_mod x y =
          residue-*ℤ p (pos (residue p x)) (pos (residue p y)) p_pos
          ∙ ap₂ (λ s t. (s * t) % p) (mod-eq_of_lt (residue-lt p x p_pos))
              (mod-eq_of_lt (residue-lt p y p_pos))
          ∙ sym (residue-*ℤ p x y p_pos)

  -- `IsSatisfied` of a witness of the right length, with 1 at the constant wire, tells whether every
  -- constraint `a · b = c` holds modulo `p`.
  pub is_satisfied_lem :
      (s : R1csSystem)
      → length witness ≡ s.num_variables
      → get_elem? witness 0 ≡ some (pos 1)
      → AllBelow s.num_variables s.constraints
      → is_satisfied lib witness (pos p) s ≡ ok (all_hold p (at witness) s.constraints)
  unfolding is_satisfied is_one
  is_satisfied_lem s len one below =
      let e : (length witness == s.num_variables) ≡ true = ground arith in
      rw (e, one)
        (check_constraints_lem s.constraints
          (subst (λ n. AllBelow n s.constraints) (sym len) below))
