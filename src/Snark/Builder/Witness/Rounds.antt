-- ===== src/Snark/Builder/Witness/Rounds.antt =====
-- The loop of `ComputeWitness` ends.
use yacl_r.Base.{
  sym, subst, ltb, set, ℕ, zero, suc, ◌+◌, ◌<◌, ◌≤◌, ◌≡◌, inl, inr, refl, ap, ◌∙◌, Bool, true,
  false, not, ◌&&◌, List, [], ◌∷◌, Option, none, some, arith, length, length-set, set, Bool-cases,
}
use yacl_r.Base.Int.{ℤ, pos, is_one}
use yacl_r.Base.NatMap.{find, put}
use yacl_r.Snark.Mp.{Tommath}
use yacl_r.Snark.R1cs.{LinearCombination, R1csConstraint}
use yacl_r.Snark.Builder.{CircuitBuilder, VarInfo}
use yacl_r.Snark.Builder.Build.{numbers}
use yacl_r.Snark.Builder.Build.Entries.{EntriesBelow, numbers-Full}
use yacl_r.Snark.Builder.Witness.{
  write, write_entry, Values, is_known, try_eval_lc, eval_var, eval_vars, set_product, propagate,
  propagate_all, round, settle, assign, fill, empty_witness, compute_witness,
}
use yacl_r.Snark.Builder.Witness.Unknown.{
  count, unknown_vars, unknown_side, unknown_sides, unknown_vars-Keeps, unknown_side-Keeps,
  unknown_sides-Keeps, Steps, Steps-refl, put-Steps, Steps-sum, unknown_vars-le, unknown_sides-le,
}

module _ (lib : Tommath) (p : ℤ) where
  eval_var-Steps :
      (v : ℕ) (info : VarInfo) (st : Values × Bool) → Steps (count v) st (eval_var lib p v info st)
  unfolding eval_var
  eval_var-Steps v info (m, b) = elim (Bool-cases (info.is_computed && not (is_known v m))) [
    | inl e ↦ rw e (by_value (try_eval_lc lib p m info.lc (pos 0)) (unknown_before e))
    | inr e ↦ rw e (Steps-refl (count v) (m, b))
  ]
    where
      unknown_before : (info.is_computed && not (is_known v m)) ≡ true → is_known v m ≡ false
      unknown_before h = ground arith

      by_value :
          (o : Option ℤ)
          → is_known v m ≡ false
          → Steps (count v) (m, b) (elim o [ none ↦ (m, b) | some x ↦ (put v x m, true) ])
      by_value none h = Steps-refl (count v) (m, b)
      by_value (some x) h = put-Steps v x m b h

  eval_vars-Steps :
      (l : List (ℕ × VarInfo)) (st : Values × Bool)
      → Steps (unknown_vars l) st (eval_vars lib p l st)
  unfolding eval_vars
  eval_vars-Steps [] st = Steps-refl (λ m. 0) st
  eval_vars-Steps ((v, info) ∷ r) st =
      Steps-sum (count v) (unknown_vars r) st (eval_var lib p v info st) _ (λ m m' h. h v)
        (unknown_vars-Keeps r) (eval_var-Steps v info st)
        (eval_vars-Steps r (eval_var lib p v info st))

  set_product-Steps :
      (l : LinearCombination) (x : ℤ) (st : Values × Bool)
      → Steps (unknown_side l) st (set_product lib p l x st)
  unfolding set_product
  set_product-Steps [] x st = Steps-refl (λ m. 0) st
  set_product-Steps ((v, c) ∷ u ∷ r) x st = Steps-refl (λ m. 0) st
  set_product-Steps ((v, c) ∷ []) x (m, b) = elim (Bool-cases (is_one c && not (is_known v m))) [
    | inl e ↦ rw e (put-Steps v x m b (unknown_before e))
    | inr e ↦ rw e (Steps-refl (count v) (m, b))
  ]
    where
      unknown_before : (is_one c && not (is_known v m)) ≡ true → is_known v m ≡ false
      unknown_before h = ground arith

  propagate-Steps :
      (k : R1csConstraint) (st : Values × Bool) → Steps (unknown_side k.c) st (propagate lib p k st)
  unfolding propagate
  propagate-Steps k st =
      by_values (try_eval_lc lib p st.0 k.a (pos 0)) (try_eval_lc lib p st.0 k.b (pos 0))
    where
      by_values :
          (a b : Option ℤ)
          → Steps (unknown_side k.c) st (elim a [
            | none ↦ st
            | some a_val ↦ elim b [
              | none ↦ st
              | some b_val ↦ set_product lib p k.c (lib.mul_mod a_val b_val p) st
            ]
          ])
      by_values none b = Steps-refl (unknown_side k.c) st
      by_values (some a_val) none = Steps-refl (unknown_side k.c) st
      by_values (some a_val) (some b_val) = set_product-Steps k.c (lib.mul_mod a_val b_val p) st

  propagate_all-Steps :
      (l : List R1csConstraint) (st : Values × Bool)
      → Steps (unknown_sides l) st (propagate_all lib p l st)
  unfolding propagate_all
  propagate_all-Steps [] st = Steps-refl (λ m. 0) st
  propagate_all-Steps (k ∷ r) st =
      Steps-sum (unknown_side k.c) (unknown_sides r) st (propagate lib p k st) _
        (unknown_side-Keeps k.c) (unknown_sides-Keeps r) (propagate-Steps k st)
        (propagate_all-Steps r (propagate lib p k st))

  unknown : CircuitBuilder → Values → ℕ
  unknown cb m = unknown_vars cb.var_info m + unknown_sides cb.constraints m

  round-Steps :
      (cb : CircuitBuilder) (m : Values) → Steps (unknown cb) (m, false) (round lib p cb m)
  unfolding round unknown
  round-Steps cb m =
      Steps-sum (unknown_vars cb.var_info) (unknown_sides cb.constraints) (m, false)
        (eval_vars lib p cb.var_info (m, false)) _ (unknown_vars-Keeps cb.var_info)
        (unknown_sides-Keeps cb.constraints) (eval_vars-Steps cb.var_info (m, false))
        (propagate_all-Steps cb.constraints _)

  write-some :
      (witness : List ℤ) (i : ℕ) (x : ℤ)
      → i < length witness
      → write witness i x ≡ some (set witness i x)
  write-some witness i x h =
      let inside : ltb i (length witness) ≡ true = ground arith in rw inside refl

  write_entry-some :
      (values : Values) (v i : ℕ) (witness : List ℤ)
      → i < length witness
      → (w : List ℤ) × (write_entry values v i witness ≡ some w) × (length w ≡ length witness)
  write_entry-some values v i witness h = by_found (find v values)
    where
      by_found :
          (o : Option ℤ)
          → (w : List ℤ) × (elim o [ none ↦ some witness | some x ↦ write witness i x ] ≡ some w)
            × (length w ≡ length witness)
      by_found none = (witness, refl, refl)
      by_found (some x) = (set witness i x, write-some witness i x h, length-set witness i x)

  fill-some :
      (values : Values) (var_map : List (ℕ × ℕ)) (witness : List ℤ)
      → EntriesBelow (length witness) var_map
      → (w : List ℤ) × (fill values var_map witness ≡ some w) × (length w ≡ length witness)
  unfolding fill
  fill-some values [] witness h = (witness, refl, refl)
  fill-some values ((v, i) ∷ r) witness (h, hs) =
      let (w, first, len) = write_entry-some values v i witness h in
      let (w', rest, len') = fill-some values r w (subst (λ n. EntriesBelow n r) (sym len) hs) in
      (w', rw (first, fill) rest, len' ∙ len)

  length-empty_witness : (n : ℕ) → length (empty_witness n) ≡ n
  unfolding empty_witness
  length-empty_witness zero = refl
  length-empty_witness (suc n) = ap suc (length-empty_witness n)

  settle-some :
      (fuel : ℕ) (cb : CircuitBuilder) (m : Values)
      → unknown cb m < fuel
      → (r : Values) × (settle lib p fuel cb m ≡ some r) × (round lib p cb r ≡ (r, false))
  unfolding settle
  settle-some zero cb m h = absurd (omega arith)
  settle-some (suc fuel) cb m h =
      let step = round-Steps cb m in
      elim step.moves [
        | inl same ↦ (m, rw (same, settle) refl, same)
        | inr (less, changed) ↦
            let (r, gives, still) =
              settle-some fuel cb (round lib p cb m).0 (omega (arith, less, h)) in
            (r, rw (changed, settle) gives, still)
      ]

  unknown-le :
      (cb : CircuitBuilder) (m : Values) → unknown cb m ≤ length cb.var_info + length cb.constraints
  unfolding unknown
  unknown-le cb m = omega (arith, unknown_vars-le cb.var_info m, unknown_sides-le cb.constraints m)

  -- `ComputeWitness` ends, and writes within its witness: its loop leaves values to which another round
  -- adds nothing, and the witness is filled with them and has one element for each variable of the
  -- system.
  pub compute_witness_lem :
      (cb : CircuitBuilder) (assignments : Values)
      → (values : Values) × (witness : List ℤ) × (compute_witness lib p cb assignments
          ≡ some witness)
        × (round lib p cb values ≡ (values, false))
        × (fill values (numbers cb).0 (set (empty_witness (numbers cb).1) 0 (pos 1)) ≡ some witness)
        × (length witness ≡ (numbers cb).1)
  unfolding compute_witness
  compute_witness_lem cb assignments =
      let n = (numbers cb).1 in
      let start = assign lib p assignments ((0, pos 1) ∷ []) in
      let (values, gives, still) =
        settle-some (length cb.var_info + length cb.constraints + 1) cb start
          (omega (arith, unknown-le cb start)) in
      let (positive, entries) = numbers-Full cb in
      let blank = set (empty_witness n) 0 (pos 1) in
      let blank_length : length blank ≡ n =
        length-set (empty_witness n) 0 (pos 1) ∙ length-empty_witness n in
      let written : write (empty_witness n) 0 (pos 1) ≡ some blank =
        write-some (empty_witness n) 0 (pos 1) (omega (arith, length-empty_witness n, positive)) in
      let (witness, filled, len) =
        fill-some values (numbers cb).0 blank
          (subst (λ k. EntriesBelow k (numbers cb).0) (sym blank_length) entries) in
      (
        values,
        witness,
        rw (gives, compute_witness) (rw (written, compute_witness) filled),
        still,
        filled,
        len ∙ blank_length,
      )
