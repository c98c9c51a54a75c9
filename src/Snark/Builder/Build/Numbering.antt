-- ===== src/Snark/Builder/Build/Numbering.antt =====
-- The numbers of the variables.
use yacl_r.Base.{
  ℕ, ◌<◌, ◌≡◌, ◌⊎◌, refl, sym, ap, ◌∙◌, List, [], ◌∷◌, Option, none, some, arith, ◌==◌,
  if◌then◌else◌, Bool-cases, inl, inr,
}
use yacl_r.Base.NatMap.{find, put, find-put}
use yacl_r.Snark.R1cs.{LinearCombination, R1csConstraint}
use yacl_r.Snark.Builder.{CircuitBuilder}
use yacl_r.Snark.Builder.Build.{
  Numbers, number, number_all, collect, collect_vars, collect_all, numbers,
}

-- Every number is below the next one, and variables with one number are the same.
pub record IsValid (m : Numbers) : Type 0 where
  pub below : (v i : ℕ) → find v m.0 ≡ some i → i < m.1
  pub injective : (u v i : ℕ) → find u m.0 ≡ some i → find v m.0 ≡ some i → u ≡ v

put_cases :
    (v n u i : ℕ) (m : List (ℕ × ℕ))
    → find u (put v n m) ≡ some i
    → ((u ≡ v) × (i ≡ n)) ⊎ (find u m ≡ some i)
put_cases v n u i m h = elim (Bool-cases (v == u)) [
  | inl e ↦ inl (ground arith, some-inj (sym h ∙ find-put v u n m ∙ rw e refl))
  | inr e ↦ inr (sym (find-put v u n m ∙ rw e refl) ∙ h)
]
  where
    some-inj : {x y : ℕ} → some x ≡ some y → x ≡ y
    some-inj h = ground arith

number-IsValid : (v : ℕ) (m : Numbers) → IsValid m → IsValid (number v m)
number-IsValid v m ok = record {
  below = λ u i h. elim (put_cases v m.1 u i m.0 h) [
    | inl new ↦ omega (arith, new.1)
    | inr old ↦ omega (arith, ok.below u i old)
  ];
  injective = λ u w i hu hw. elim (put_cases v m.1 u i m.0 hu) [
    | inl a ↦ elim (put_cases v m.1 w i m.0 hw) [
      | inl b ↦ a.0 ∙ sym b.0
      | inr b ↦ absurd (omega (arith, ok.below w i b, a.1))
    ]
    | inr a ↦ elim (put_cases v m.1 w i m.0 hw) [
      | inl b ↦ absurd (omega (arith, ok.below u i a, b.1))
      | inr b ↦ ok.injective u w i a b
    ]
  ];
}

-- What `m` knows, `m'` knows.
record Grows (m m' : Numbers) : Type 0 where
  valid : IsValid m → IsValid m'
  stays : (v i : ℕ) → find v m.0 ≡ some i → find v m'.0 ≡ some i

Grows-trans : (m n o : Numbers) → Grows m n → Grows n o → Grows m o
Grows-trans m n o g h = record {
  valid = λ ok. h.valid (g.valid ok);
  stays = λ v i e. h.stays v i (g.stays v i e);
}

abbrev pub Known : Numbers → ℕ → Type 0
Known m v = (i : ℕ) × (find v m.0 ≡ some i)

-- A variable that is collected is known.
collect-Grows : (var : ℕ) (m : Numbers) → Grows m (collect var m) × Known (collect var m) var
collect-Grows var m = elim (find_cases (find var m.0)) [
  | inl new ↦
      rw (new, collect)
        (
          record {
            valid = number-IsValid var m;
            stays = λ v i h. kept v i (find-put var v m.1 m.0) new h;
          },
          (m.1, find-put var var m.1 m.0 ∙ here),
        )
  | inr (i, old) ↦ rw (old, collect) (record { valid = λ ok. ok; stays = λ v j h. h }, (i, old))
]
  where
    here : (if var == var then some m.1 else find var m.0) ≡ some m.1
    here = ground arith

    none-ne-some : {i : ℕ} → none ≡ some i → ⊥
    none-ne-some h = ground arith

    kept :
        (v i : ℕ)
        → find v (put var m.1 m.0) ≡ (if var == v then some m.1 else find v m.0)
        → find var m.0 ≡ none
        → find v m.0 ≡ some i
        → find v (put var m.1 m.0) ≡ some i
    kept v i e new h = elim (Bool-cases (var == v)) [
      | inl same ↦
          let at_v : var ≡ v = ground arith in
          absurd (none-ne-some (sym new ∙ ap (λ t. find t m.0) at_v ∙ h))
      | inr other ↦ e ∙ rw other h
    ]

    find_cases : (x : Option ℕ) → (x ≡ none) ⊎ ((i : ℕ) × (x ≡ some i))
    find_cases none = inl refl
    find_cases (some i) = inr (i, refl)

Grows-refl : (m : Numbers) → Grows m m
Grows-refl m = record { valid = λ ok. ok; stays = λ v i h. h }

number_all-IsValid : (vs : List ℕ) (m : Numbers) → IsValid m → IsValid (number_all vs m)
unfolding number_all
number_all-IsValid [] m ok = ok
number_all-IsValid (v ∷ r) m ok = number_all-IsValid r (number v m) (number-IsValid v m ok)

abbrev pub AllKnown : Numbers → LinearCombination → Type 0
AllKnown m [] = Unit {0}
AllKnown m ((v, c) ∷ r) = Known m v × AllKnown m r

AllKnown-Grows :
    (m m' : Numbers) (lc : LinearCombination) → Grows m m' → AllKnown m lc → AllKnown m' lc
AllKnown-Grows m m' [] g h = tt
AllKnown-Grows m m' ((v, c) ∷ r) g ((i, e), h) = ((i, g.stays v i e), AllKnown-Grows m m' r g h)

collect_vars-Grows :
    (lc : LinearCombination) (m : Numbers)
    → Grows m (collect_vars lc m) × AllKnown (collect_vars lc m) lc
unfolding collect_vars
collect_vars-Grows [] m = (Grows-refl m, tt)
collect_vars-Grows ((v, c) ∷ r) m =
    let (first, (i, e)) = collect-Grows v m in
    let (rest, known) = collect_vars-Grows r (collect v m) in
    (Grows-trans _ _ _ first rest, ((i, rest.stays v i e), known))

abbrev pub ConstraintsKnown : Numbers → List R1csConstraint → Type 0
ConstraintsKnown m [] = Unit {0}
ConstraintsKnown m (k ∷ r) = AllKnown m k.a × AllKnown m k.b × AllKnown m k.c × ConstraintsKnown m r

collect_all-Grows :
    (ks : List R1csConstraint) (m : Numbers)
    → Grows m (collect_all ks m) × ConstraintsKnown (collect_all ks m) ks
unfolding collect_all
collect_all-Grows [] m = (Grows-refl m, tt)
collect_all-Grows (k ∷ r) m =
    let (ga, ka) = collect_vars-Grows k.a m in
    let (gb, kb) = collect_vars-Grows k.b (collect_vars k.a m) in
    let (gc, kc) = collect_vars-Grows k.c (collect_vars k.b (collect_vars k.a m)) in
    let (rest, known) =
      collect_all-Grows r (collect_vars k.c (collect_vars k.b (collect_vars k.a m))) in
    let from_b = Grows-trans _ _ _ gc rest in
    (
      Grows-trans _ _ _ ga (Grows-trans _ _ _ gb from_b),
      (
        AllKnown-Grows _ _ k.a (Grows-trans _ _ _ gb from_b) ka,
        AllKnown-Grows _ _ k.b from_b kb,
        AllKnown-Grows _ _ k.c rest kc,
        known,
      ),
    )

only_one : IsValid ((0, 0) ∷ [], 1)
unfolding put find
only_one =
    number-IsValid 0 ([], 0)
      (record { below = λ v i h. absurd (nothing h); injective = λ u v i h. absurd (nothing h) })
  where
    nothing : {i : ℕ} → none ≡ some i → ⊥
    nothing h = ground arith

-- `Build` numbers different variables differently, below the number of variables, and numbers every
-- variable of a constraint.
pub numbers-IsValid :
    (cb : CircuitBuilder) → IsValid (numbers cb) × ConstraintsKnown (numbers cb) cb.constraints
unfolding numbers
numbers-IsValid cb =
    let inputs = number_all cb.private_vars (number_all cb.public_vars ((0, 0) ∷ [], 1)) in
    let (grows, known) = collect_all-Grows cb.constraints inputs in
    (
      grows.valid
          (number_all-IsValid cb.private_vars _ (number_all-IsValid cb.public_vars _ only_one)),
      known,
    )
