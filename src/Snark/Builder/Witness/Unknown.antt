-- ===== src/Snark/Builder/Witness/Unknown.antt =====
-- How many variables have no value yet in `ComputeWitness`, and steps that give them values.
use yacl_r.Base.{
  ℕ, ◌+◌, ◌<◌, ◌≤◌, ◌≡◌, ◌⊎◌, inl, inr, refl, ap, ◌∙◌, Bool, true, false, List, [], ◌∷◌, arith,
  length, if◌then◌else◌, ◌==◌,
}
use yacl_r.Base.Int.{ℤ}
use yacl_r.Base.NatMap.{put, find-put}
use yacl_r.Snark.R1cs.{LinearCombination, R1csConstraint}
use yacl_r.Snark.Builder.{VarInfo}
use yacl_r.Snark.Builder.Witness.{Values, is_known}

-- 1 for a variable without a value.
abbrev pub count : ℕ → Values → ℕ
count v m = if is_known v m then 0 else 1

-- What is known stays known.
abbrev pub Keeps : Values → Values → Type 0
Keeps m m' = (v : ℕ) → count v m' ≤ count v m

pub is_known-put :
    (v u : ℕ) (x : ℤ) (m : Values)
    → is_known u (put v x m) ≡ (if v == u then true else is_known u m)
unfolding is_known
is_known-put v u x m = ground (arith, find-put v u x m)

pub put-Keeps : (v : ℕ) (x : ℤ) (m : Values) → Keeps m (put v x m)
put-Keeps v x m u = ground (arith, is_known-put v u x m)

pub put-knows : (v : ℕ) (x : ℤ) (m : Values) → count v (put v x m) ≡ 0
put-knows v x m = ground (arith, is_known-put v v x m)

abbrev pub unknown_vars : List (ℕ × VarInfo) → Values → ℕ
unknown_vars [] m = 0
unknown_vars ((v, info) ∷ r) m = count v m + unknown_vars r m

-- The right sides that are one variable without a value.
abbrev pub unknown_side : LinearCombination → Values → ℕ
unknown_side [] m = 0
unknown_side ((v, c) ∷ []) m = count v m
unknown_side ((v, c) ∷ u ∷ r) m = 0

abbrev pub unknown_sides : List R1csConstraint → Values → ℕ
unknown_sides [] m = 0
unknown_sides (k ∷ r) m = unknown_side k.c m + unknown_sides r m

pub unknown_vars-Keeps :
    (l : List (ℕ × VarInfo)) (m m' : Values) → Keeps m m' → unknown_vars l m' ≤ unknown_vars l m
unknown_vars-Keeps [] m m' h = omega arith
unknown_vars-Keeps ((v, info) ∷ r) m m' h = omega (arith, h v, unknown_vars-Keeps r m m' h)

pub unknown_side-Keeps :
    (l : LinearCombination) (m m' : Values) → Keeps m m' → unknown_side l m' ≤ unknown_side l m
unknown_side-Keeps [] m m' h = omega arith
unknown_side-Keeps ((v, c) ∷ []) m m' h = h v
unknown_side-Keeps ((v, c) ∷ u ∷ r) m m' h = omega arith

pub unknown_sides-Keeps :
    (l : List R1csConstraint) (m m' : Values) → Keeps m m' → unknown_sides l m' ≤ unknown_sides l m
unknown_sides-Keeps [] m m' h = omega arith
unknown_sides-Keeps (k ∷ r) m m' h =
    omega (arith, unknown_side-Keeps k.c m m' h, unknown_sides-Keeps r m m' h)

-- A step keeps what is known, and changes nothing or makes `unknown` smaller and says so.
pub record Steps (unknown : Values → ℕ) (st st' : Values × Bool) : Type 0 where
  pub keeps : Keeps st.0 st'.0
  pub moves : (st' ≡ st) ⊎ ((unknown st'.0 < unknown st.0) × (st'.1 ≡ true))

pub Steps-refl : (unknown : Values → ℕ) (st : Values × Bool) → Steps unknown st st
Steps-refl unknown st = record { keeps = λ v. omega arith; moves = inl refl }

-- A variable that gets a value had none.
pub put-Steps :
    (v : ℕ) (x : ℤ) (m : Values) (b : Bool)
    → is_known v m ≡ false
    → Steps (count v) (m, b) (put v x m, true)
put-Steps v x m b h = record { keeps = put-Keeps v x m; moves = inr (less (put-knows v x m), refl) }
  where
    less : count v (put v x m) ≡ 0 → count v (put v x m) < count v m
    less known = ground (arith, h, known)

abbrev pub Monotone : (Values → ℕ) → Type 0
Monotone unknown = (m m' : Values) → Keeps m m' → unknown m' ≤ unknown m

pub Steps-sum :
    (f g : Values → ℕ) (st st' st'' : Values × Bool)
    → Monotone f
    → Monotone g
    → Steps f st st'
    → Steps g st' st''
    → Steps (λ m. f m + g m) st st''
Steps-sum f g st st' st'' mf mg first second = record {
  keeps = λ v. omega (arith, first.keeps v, second.keeps v);
  moves = elim first.moves [
    | inl same ↦ elim second.moves [
      | inl same' ↦ inl (same' ∙ same)
      | inr (less, changed) ↦ inr (
        omega (
          arith,
          less,
          mf st.0 st'.0 first.keeps,
          mf st'.0 st''.0 second.keeps,
          mg st.0 st'.0 first.keeps,
        ),
        changed,
      )
    ]
    | inr (less, changed) ↦ inr (
      omega (
        arith,
        less,
        mf st'.0 st''.0 second.keeps,
        mg st.0 st'.0 first.keeps,
        mg st'.0 st''.0 second.keeps,
      ),
      stays_changed changed second.moves,
    )
  ];
}
  where
    stays_changed :
        {A : Type 0} → st'.1 ≡ true → (st'' ≡ st') ⊎ (A × (st''.1 ≡ true)) → st''.1 ≡ true
    stays_changed changed (inl same) = ap (λ t. t.1) same ∙ changed
    stays_changed changed (inr (less, done)) = done

pub count-le : (v : ℕ) (m : Values) → count v m ≤ 1
count-le v m = ground arith

pub unknown_vars-le : (l : List (ℕ × VarInfo)) (m : Values) → unknown_vars l m ≤ length l
unknown_vars-le [] m = omega arith
unknown_vars-le ((v, info) ∷ r) m = omega (arith, count-le v m, unknown_vars-le r m)

pub unknown_side-le : (l : LinearCombination) (m : Values) → unknown_side l m ≤ 1
unknown_side-le [] m = omega arith
unknown_side-le ((v, c) ∷ []) m = count-le v m
unknown_side-le ((v, c) ∷ u ∷ r) m = omega arith

pub unknown_sides-le : (l : List R1csConstraint) (m : Values) → unknown_sides l m ≤ length l
unknown_sides-le [] m = omega arith
unknown_sides-le (k ∷ r) m = omega (arith, unknown_side-le k.c m, unknown_sides-le r m)
