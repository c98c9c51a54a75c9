-- ===== src/Cuckoo/Lookup.antt =====
-- `MinCollidingHashIdx` (yacl/coding/batch/cuckoo_index.cc).
use yacl_r.Base.{
  ℕ, zero, suc, ◌+◌, ◌<◌, ◌≤◌, ◌≡◌, ◌≢◌, refl, sym, ap, ◌∙◌, true, false, List, some, Result, ok,
  arith, get_elem?, get_elem?-some, ◌==◌, leb, Bool-cases, inl, inr, ◌⊎◌,
}
use yacl_r.Cuckoo.Bin.{is_empty, hash_idx, input_idx}
use yacl_r.Cuckoo.Place.{remainder-ok, get_hash-ok}
use yacl_r.Cuckoo.Insert.{IsValid}
use yacl_r.Cuckoo.{CuckooIndex, bin_of, num_bins, target, colliding_loop, min_colliding_hash_idx}

module _ (code num_bins bin_index : ℕ) (bins_pos : 0 < num_bins) where
  target-ok : (i : ℕ) → i < 5 → (t : ℕ) × (target code num_bins i ≡ ok t) × (t < num_bins)
  unfolding target
  target-ok i h =
      let (hash, hashed) = get_hash-ok code i h in
      let (t, rest, below) = remainder-ok hash num_bins bins_pos in (t, rw hashed rest, below)

  misses :
      (i t : ℕ)
      → target code num_bins i ≡ ok t
      → (t == bin_index) ≡ false
      → target code num_bins i ≢ ok bin_index
  misses i t gives e h = clash t bin_index (ok-inj (sym gives ∙ h)) e
    where
      ok-inj : {a b : ℕ} → ok a ≡ ok b → a ≡ b
      ok-inj h = ground arith

      clash : (a b : ℕ) → a ≡ b → (a == b) ≡ false → ⊥
      clash a b h e = ground arith

  at_or_after : (i m : ℕ) → i ≤ m → (i ≡ m) ⊎ (suc i ≤ m)
  at_or_after i m h = elim (Bool-cases (i == m)) [
    | inl e ↦ inl (ground (arith, e))
    | inr e ↦ inr (ground (arith, e))
  ]

  -- The first of the functions from `i` on that gives the bin.
  record First (i j : ℕ) (out : Result ℕ) : Type 0 where
    found : ℕ
    gives : out ≡ ok found
    from : i ≤ found
    upto : found ≤ j
    collides : target code num_bins found ≡ ok bin_index
    least : (m : ℕ) → i ≤ m → m < found → target code num_bins m ≢ ok bin_index

  colliding_loop-First :
      (i n j : ℕ)
      → i ≤ j
      → j < i + n
      → i + n ≤ 5
      → target code num_bins j ≡ ok bin_index
      → First i j (colliding_loop code num_bins bin_index i n)
  unfolding colliding_loop
  colliding_loop-First i zero j from below few h = absurd (omega arith)
  colliding_loop-First i (suc n) j from below few h =
      let (t, gives, in_range) = target-ok i (omega arith) in
      elim (Bool-cases (t == bin_index)) [
        | inl e ↦ record {
          found = i;
          gives = rw (gives, colliding_loop) (rw (e, colliding_loop) (ap ok (omega arith)));
          from = omega arith;
          upto = from;
          collides = gives ∙ ap ok (same t bin_index e);
          least = λ m lo hi. absurd (omega arith);
        }
        | inr e ↦
            let later : suc i ≤ j = elim (at_or_after i j from) [
              | inl here ↦ absurd (misses i t gives e (ap (λ s. target code num_bins s) here ∙ h))
              | inr after ↦ after
            ] in
            let rest =
              colliding_loop-First (i + 1) n j (omega arith) (omega arith) (omega arith) h in
            record {
              found = rest.found;
              gives = rw (gives, colliding_loop) (rw (e, colliding_loop) rest.gives);
              from = omega (arith, rest.from);
              upto = rest.upto;
              collides = rest.collides;
              least = λ m lo hi c. elim (at_or_after i m lo) [
                | inl here ↦ misses i t gives e (ap (λ s. target code num_bins s) here ∙ c)
                | inr after ↦ rest.least m (omega arith) hi c
              ];
            }
      ]
    where
      same : (a b : ℕ) → (a == b) ≡ true → a ≡ b
      same a b e = ground arith

own_bin :
    (hashes : List ℕ) (bins b code : ℕ)
    → get_elem? hashes (input_idx b) ≡ some code
    → target code bins (hash_idx b) ≡ bin_of hashes bins b
unfolding target bin_of
own_bin hashes bins b code h = rw (h, bin_of) refl

module _ {Double : Type 0} (times : ℕ → Double → ℕ) where
  -- `MinCollidingHashIdx` of a bin that is not empty, in an index where each input is in its place,
  -- returns the least hash function by which the input of the bin hashes to the bin: it is at most
  -- the one that the bin records, and any function `m` is not less, or does not lead to the bin.
  pub min_colliding_hash_idx-least :
      (index : CuckooIndex Double) (i b m : ℕ)
      → IsValid times index
      → get_elem? index.bins i ≡ some b
      → is_empty b ≡ false
      → (found : ℕ) × (code : ℕ) × (min_colliding_hash_idx times i index ≡ ok found)
        × (found ≤ hash_idx b)
        × (get_elem? index.hashes (input_idx b) ≡ some code)
        × (target code (num_bins times index.options) found ≡ ok i)
        × ((found ≤ m) ⊎ (target code (num_bins times index.options) m ≢ ok i))
  unfolding min_colliding_hash_idx
  min_colliding_hash_idx-least index i b m valid at_i full =
      let here = valid.placed.good i b at_i full in
      let (code, at_input) = get_elem?-some index.hashes (input_idx b) here.known in
      let first =
        colliding_loop-First code (num_bins times index.options) i valid.bins_pos 0
          index.options.num_hash (hash_idx b) (omega arith) (omega (arith, here.hashed))
          (omega (arith, valid.hash_few))
          (own_bin index.hashes (num_bins times index.options) b code at_input
            ∙ valid.placed.home i b at_i full) in
      (
        first.found,
        code,
        rw (at_i, min_colliding_hash_idx) (rw (at_input, min_colliding_hash_idx) first.gives),
        first.upto,
        at_input,
        first.collides,
        elim (Bool-cases (leb first.found m)) [
          | inl e ↦ inl (ground (arith, e))
          | inr e ↦ inr (first.least m (omega arith) (ground (arith, e)))
        ],
      )
