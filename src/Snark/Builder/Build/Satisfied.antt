-- ===== src/Snark/Builder/Build/Satisfied.antt =====
-- The system that `Build` gives, and the constraints of the builder.
use yacl_r.Base.{
  ℕ, ◌<◌, ◌≡◌, refl, sym, ap, ◌∙◌, List, [], ◌∷◌, ◌++◌, append-nil, append_assoc, none, some,
  length, ◌==◌, Bool-cases, inl, inr, ltb, get_elem?, ok, ◌>>=◌,
}
use yacl_r.Base.Int.{ℤ, pos, ◌+ℤ◌, is_zero, zero-+ℤ, eq_of_parts, sums}
use yacl_r.Base.NatMap.{find}
use yacl_r.Snark.Mp.{Tommath}
use yacl_r.Snark.R1cs.{
  LinearCombination, add_term, R1csConstraint, R1csSystem, add_constraint, is_satisfied,
}
use yacl_r.Snark.R1cs.Values.{
  dot, dot-add_term, at, VarsBelow, AllBelow, all_hold, is_satisfied_lem,
}
use yacl_r.Snark.Builder.{CircuitBuilder}
use yacl_r.Snark.Builder.Build.{Numbers, numbers, remap_terms, remap_lc, remap_all, build}
use yacl_r.Snark.Builder.Build.Numbering.{IsValid, AllKnown, ConstraintsKnown, numbers-IsValid}

VarsBelow-add_term :
    (n v : ℕ) (c : ℤ) (lc : LinearCombination)
    → v < n
    → VarsBelow n lc
    → VarsBelow n (add_term v c lc)
unfolding add_term
VarsBelow-add_term n v c [] h below = elim (Bool-cases (is_zero c)) [
  | inl e ↦ rw e tt
  | inr e ↦ rw e (h, tt)
]
VarsBelow-add_term n v c ((u, x) ∷ r) h below = elim (Bool-cases (v == u)) [
  | inl e ↦ elim (Bool-cases (is_zero (x +ℤ c))) [
    | inl z ↦ rw (e, z) below.1
    | inr z ↦ rw (e, z) below
  ]
  | inr e ↦ elim (Bool-cases (ltb v u)) [
    | inl less ↦ elim (Bool-cases (is_zero c)) [
      | inl z ↦ rw (e, less, z) below
      | inr z ↦ rw (e, less, z) (h, below)
    ]
    | inr less ↦ rw (e, less) (below.0, VarsBelow-add_term n v c r h below.1)
  ]
]

-- The number of a variable.
abbrev pub index : Numbers → ℕ → ℕ
index m v = elim (find v m.0) [ none ↦ 0 | some i ↦ i ]

-- `l` is `lc` over the numbers.
abbrev Renames : Numbers → LinearCombination → LinearCombination → Type 0
Renames m lc l = VarsBelow m.1 l × ((f : ℕ → ℤ) → dot f l ≡ dot (λ v. f (index m v)) lc)

remap_terms_lem :
    (m : Numbers) (lc result : LinearCombination)
    → IsValid m
    → AllKnown m lc
    → VarsBelow m.1 result
    → (l : LinearCombination) × (remap_terms m.0 lc result ≡ ok l)
      × VarsBelow m.1 l
      × ((f : ℕ → ℤ) → dot f l ≡ dot (λ v. f (index m v)) lc +ℤ dot f result)
unfolding remap_terms
remap_terms_lem m [] result valid known below =
    (result, refl, below, λ f. sym (zero-+ℤ (dot f result)))
remap_terms_lem m ((v, c) ∷ r) result valid ((i, e), known) below =
    let i_below : i < m.1 = valid.below v i e in
    let (l, gives, l_below, value) =
      remap_terms_lem m r (add_term i c result) valid known
        (VarsBelow-add_term m.1 i c result i_below below) in
    (
      l,
      rw (e, remap_terms) gives,
      l_below,
      λ f. value f ∙ rw (e, index) (rw (dot-add_term f i c result) (eq_of_parts _ _ (omega sums))),
    )

remap_lc-Renames :
    (m : Numbers) (lc : LinearCombination)
    → IsValid m
    → AllKnown m lc
    → (l : LinearCombination) × (remap_lc lc m.0 ≡ ok l) × Renames m lc l
unfolding remap_lc
remap_lc-Renames m lc valid known =
    let (l, gives, below, value) = remap_terms_lem m lc [] valid known tt in
    (l, gives, (below, λ f. value f ∙ eq_of_parts _ _ (omega sums)))

abbrev AllRename : Numbers → List R1csConstraint → List R1csConstraint → Type 0
AllRename m [] [] = Unit {0}
AllRename m [] (l ∷ ls) = ⊥
AllRename m (k ∷ ks) [] = ⊥
AllRename m (k ∷ ks) (l ∷ ls) =
    Renames m k.a l.a × Renames m k.b l.b × Renames m k.c l.c × AllRename m ks ls

AllRename-below : (m : Numbers) (ks ls : List R1csConstraint) → AllRename m ks ls → AllBelow m.1 ls
AllRename-below m [] [] h = tt
AllRename-below m [] (l ∷ ls) h = absurd h
AllRename-below m (k ∷ ks) [] h = absurd h
AllRename-below m (k ∷ ks) (l ∷ ls) (a, b, c, h) = (a.0, b.0, c.0, AllRename-below m ks ls h)

AllRename-hold :
    (m : Numbers) (ks ls : List R1csConstraint) (p : ℕ) (f : ℕ → ℤ)
    → AllRename m ks ls
    → all_hold p f ls ≡ all_hold p (λ v. f (index m v)) ks
AllRename-hold m [] [] p f h = refl
AllRename-hold m [] (l ∷ ls) p f h = absurd h
AllRename-hold m (k ∷ ks) [] p f h = absurd h
AllRename-hold m (k ∷ ks) (l ∷ ls) p f (a, b, c, h) =
    rw (a.1 f, b.1 f, c.1 f, AllRename-hold m ks ls p f h) refl

remap_all-AllRename :
    (m : Numbers) (ks : List R1csConstraint) (s : R1csSystem)
    → IsValid m
    → ConstraintsKnown m ks
    → (ls : List R1csConstraint) × (remap_all m.0 ks s
        ≡ ok (record s { constraints = s.constraints ++ ls }))
      × AllRename m ks ls
unfolding remap_all add_constraint
remap_all-AllRename m [] s valid known =
    ([], ap (λ t. ok (record s { constraints = t })) (sym (append-nil s.constraints)), tt)
remap_all-AllRename m (k ∷ r) s valid (ka, kb, kc, known) =
    let (a, gives_a, ra) = remap_lc-Renames m k.a valid ka in
    let (b, gives_b, rb) = remap_lc-Renames m k.b valid kb in
    let (c, gives_c, rc) = remap_lc-Renames m k.c valid kc in
    let l : R1csConstraint = record { a = a; b = b; c = c } in
    let (ls, gives, h) = remap_all-AllRename m r (add_constraint l s) valid known in
    (
      l ∷ ls,
      rw (gives_a, gives_b, gives_c)
          (gives
            ∙ ap (λ t. ok (record s { constraints = t })) (append_assoc s.constraints (l ∷ []) ls)),
      (ra, rb, rc, h),
    )

-- `Build` succeeds, and a witness of the right length with 1 at the constant wire satisfies the
-- system exactly if the builder's constraints hold where each variable has the witness's value at
-- its number.
pub is_satisfied-build :
    (lib : Tommath) (p : ℕ) (witness : List ℤ) (cb : CircuitBuilder)
    → 0 < p
    → length witness ≡ (numbers cb).1
    → get_elem? witness 0 ≡ some (pos 1)
    → (do s ← build cb; is_satisfied lib witness (pos p) s)
      ≡ ok (all_hold p (λ v. at witness (index (numbers cb) v)) cb.constraints)
unfolding build
is_satisfied-build lib p witness cb p_pos len one =
    let m = numbers cb in
    let (valid, known) = numbers-IsValid cb in
    let start : R1csSystem = record {
      constraints = [];
      num_variables = m.1;
      num_public_inputs = length cb.public_vars;
    } in
    let (ls, gives, h) = remap_all-AllRename m cb.constraints start valid known in
    rw gives (
      is_satisfied_lem lib p p_pos witness (record start { constraints = ls }) len one
        (AllRename-below m cb.constraints ls h)
      ∙ ap ok (AllRename-hold m cb.constraints ls p (at witness) h))
