-- ===== src/Snark/Builder/Build/Entries.antt =====
-- The entries of the map from variables to numbers.
use yacl_r.Base.{
  ◌+◌, ℕ, ◌<◌, List, [], ◌∷◌, Option, none, some, arith, ◌==◌, Bool-cases, ltb, inl, inr,
}
use yacl_r.Base.NatMap.{find, put}
use yacl_r.Snark.R1cs.{LinearCombination, R1csConstraint}
use yacl_r.Snark.Builder.{CircuitBuilder}
use yacl_r.Snark.Builder.Build.{
  Numbers, number, number_all, collect, collect_vars, collect_all, numbers,
}

-- Every entry has a number below `n`.
abbrev pub EntriesBelow : ℕ → List (ℕ × ℕ) → Type 0
EntriesBelow n [] = Unit {0}
EntriesBelow n ((v, i) ∷ r) = (i < n) × EntriesBelow n r

EntriesBelow-suc : (n : ℕ) (m : List (ℕ × ℕ)) → EntriesBelow n m → EntriesBelow (n + 1) m
EntriesBelow-suc n [] h = tt
EntriesBelow-suc n ((v, i) ∷ r) (h, hs) = (omega arith, EntriesBelow-suc n r hs)

put-EntriesBelow :
    (n v i : ℕ) (m : List (ℕ × ℕ)) → i < n → EntriesBelow n m → EntriesBelow n (put v i m)
unfolding put
put-EntriesBelow n v i [] h hs = (h, tt)
put-EntriesBelow n v i ((u, k) ∷ r) h (hk, hs) = elim (Bool-cases (v == u)) [
  | inl e ↦ rw e (h, hs)
  | inr e ↦ elim (Bool-cases (ltb v u)) [
    | inl less ↦ rw (e, less) (h, (hk, hs))
    | inr more ↦ rw (e, more) (hk, put-EntriesBelow n v i r h hs)
  ]
]

abbrev Full : Numbers → Type 0
Full m = (0 < m.1) × EntriesBelow m.1 m.0

number-Full : (v : ℕ) (m : Numbers) → Full m → Full (number v m)
number-Full v m (h, hs) =
    (omega arith, put-EntriesBelow (m.1 + 1) v m.1 m.0 (omega arith) (EntriesBelow-suc m.1 m.0 hs))

number_all-Full : (vs : List ℕ) (m : Numbers) → Full m → Full (number_all vs m)
unfolding number_all
number_all-Full [] m h = h
number_all-Full (v ∷ r) m h = number_all-Full r (number v m) (number-Full v m h)

collect-Full : (v : ℕ) (m : Numbers) → Full m → Full (collect v m)
collect-Full v m h = by_found (find v m.0)
  where
    by_found : (o : Option ℕ) → Full (elim o [ none ↦ number v m | some i ↦ m ])
    by_found none = number-Full v m h
    by_found (some i) = h

collect_vars-Full : (lc : LinearCombination) (m : Numbers) → Full m → Full (collect_vars lc m)
unfolding collect_vars
collect_vars-Full [] m h = h
collect_vars-Full ((v, c) ∷ r) m h = collect_vars-Full r (collect v m) (collect-Full v m h)

collect_all-Full : (ks : List R1csConstraint) (m : Numbers) → Full m → Full (collect_all ks m)
unfolding collect_all
collect_all-Full [] m h = h
collect_all-Full (k ∷ r) m h =
    collect_all-Full r _
      (collect_vars-Full k.c _ (collect_vars-Full k.b _ (collect_vars-Full k.a m h)))

-- The entries of the map have numbers below the number of variables, which is positive.
pub numbers-Full :
    (cb : CircuitBuilder) → (0 < (numbers cb).1) × EntriesBelow (numbers cb).1 (numbers cb).0
unfolding numbers
numbers-Full cb = collect_all-Full cb.constraints _ (
    number_all-Full cb.private_vars _
      (number_all-Full cb.public_vars _ (omega arith, (omega arith, tt))))
