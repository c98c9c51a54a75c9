-- ===== src/Cuckoo/Insert.antt =====
-- `Insert` (yacl/coding/batch/cuckoo_index.cc) keeps every input in exactly one bin or stash slot.
use yacl_r.Base.{
  ℕ, zero, suc, ◌+◌, ◌-◌, ◌*◌, ◌%◌, ◌^◌, ◌<◌, ◌≤◌, ◌≡◌, refl, ap, ◌∙◌, true, false, List, [], ◌++◌,
  some, Result, ok, err, enforce_not_met, runtime_error, arith, length, length-append,
  length-replicate, get_elem?, replicate, ltb, leb, if◌then◌else◌, Bool-cases, inl, inr, ◌⊎◌,
}
use yacl_r.Base.Index.{get_elem?-append_left}
use yacl_r.Cuckoo.Bin.{k_empty, is_empty, hash_idx, input_idx}
use yacl_r.Cuckoo.Count.{
  Candidate, Candidates, count, count-replicate, has-input, full_of_small, free, free-replicate,
  put_all-Stored, put_all-full,
}
use yacl_r.Cuckoo.Place.{Placed, Tried, Tries, try_all-Tried}
use yacl_r.Cuckoo.{Options, CuckooIndex, bin_of, first_candidates, try_all, num_bins, new, insert}

-- Each input that was given is in one bin or one stash slot, once.
pub record IsValid {Double : Type 0} (times : ℕ → Double → ℕ) (index : CuckooIndex Double)
    : Type 0 where
  pub inputs_few : index.options.num_input < 2 ^ 56
  pub hash_pos : 0 < index.options.num_hash
  pub hash_few : index.options.num_hash ≤ 5
  pub bins_pos : 0 < num_bins times index.options
  pub fits : length index.hashes ≤ index.options.num_input
  pub placed : Placed index.hashes (num_bins times index.options) index.options.num_hash index.bins
  pub once :
      (k : ℕ)
      → count k index.bins + count k index.stash ≡ (if ltb k (length index.hashes) then 1 else 0)

Candidate-more : (n m num_hash c : ℕ) → n ≤ m → Candidate n num_hash c → Candidate m num_hash c
Candidate-more n m num_hash c h candidate = record {
  full = candidate.full;
  known = omega (arith, candidate.known);
  hashed = candidate.hashed;
}

bin_of-append :
    (hashes codes : List ℕ) (bins c : ℕ)
    → input_idx c < length hashes
    → bin_of (hashes ++ codes) bins c ≡ bin_of hashes bins c
unfolding bin_of
bin_of-append hashes codes bins c h = rw (get_elem?-append_left hashes codes (input_idx c) h) refl

Placed-append :
    (hashes codes : List ℕ) (bins num_hash : ℕ) (l : List ℕ)
    → Placed hashes bins num_hash l
    → Placed (hashes ++ codes) bins num_hash l
Placed-append hashes codes bins num_hash l placed = record {
  size = placed.size;
  good = λ i b at_i full.
      Candidate-more (length hashes) (length (hashes ++ codes)) num_hash b
        (omega (arith, length-append hashes codes)) (placed.good i b at_i full);
  home = λ i b at_i full.
      let known = placed.good i b at_i full in
      bin_of-append hashes codes bins b known.known ∙ placed.home i b at_i full;
}

small_Candidate : (n num_hash c : ℕ) → 0 < num_hash → n < 2 ^ 56 → c < n → Candidate n num_hash c
unfolding input_idx hash_idx
small_Candidate n num_hash c hash_pos small h = record {
  full = full_of_small c (omega arith);
  known = omega arith;
  hashed = omega arith;
}

first_candidates-Candidates :
    (m num_hash offset n : ℕ)
    → 0 < num_hash
    → m < 2 ^ 56
    → offset + n ≤ m
    → Candidates m num_hash (first_candidates offset n)
unfolding first_candidates
first_candidates-Candidates m num_hash offset zero hash_pos small h = tt
first_candidates-Candidates m num_hash offset (suc n) hash_pos small h = (
  small_Candidate m num_hash offset hash_pos small (omega arith),
  first_candidates-Candidates m num_hash (offset + 1) n hash_pos small (omega arith),
)

length-first_candidates : (offset n : ℕ) → length (first_candidates offset n) ≡ n
unfolding first_candidates
length-first_candidates offset zero = refl
length-first_candidates offset (suc n) = ap suc (length-first_candidates (offset + 1) n)

-- The candidates are the inputs from `offset` on.
abbrev from_to : ℕ → ℕ → ℕ → ℕ
from_to k offset n = if ltb k offset then 0 else if ltb k (offset + n) then 1 else 0

count-first_candidates :
    (k offset n : ℕ)
    → offset + n < 2 ^ 56
    → count k (first_candidates offset n) ≡ from_to k offset n
unfolding first_candidates count
count-first_candidates k offset zero h = ground arith
count-first_candidates k offset (suc n) h =
    ground (
      arith,
      count-first_candidates k (offset + 1) n (omega arith),
      has-input k offset (omega arith),
    )

all_empty : (n i b : ℕ) → get_elem? (replicate n k_empty) i ≡ some b → is_empty b ≡ false → ⊥
unfolding is_empty
all_empty zero i b h full = ground (arith, h)
all_empty (suc n) zero b h full = ground (arith, h, full)
all_empty (suc n) (suc i) b h full = all_empty n i b h full

module _ {Double : Type 0} (times : ℕ → Double → ℕ) where
  -- What `Insert` leads to. It refuses more inputs than were announced. Otherwise the tries turn the
  -- bins into `bins` and leave `left`; it throws exactly when the stash has fewer free slots than are
  -- left, and if not, all inputs are in their places.
  abbrev pub Inserts : List ℕ → CuckooIndex Double → Result (CuckooIndex Double) → Type 0
  Inserts codes index out =
      ((out ≡ err enforce_not_met) × (index.options.num_input < length index.hashes + length codes))
      ⊎ ((length index.hashes + length codes ≤ index.options.num_input)
          × (bins : List ℕ) × (left : List ℕ) × Tries (index.hashes ++ codes)
              (num_bins times index.options) index.options.num_hash index.options.max_try_count
              (first_candidates (length index.hashes) (length codes)) index.bins bins left
          × (((out ≡ err runtime_error) × (free index.stash < length left))
              ⊎ ((length left ≤ free index.stash)
                  × (next : CuckooIndex Double) × (out ≡ ok next)
                  × (next.hashes ≡ index.hashes ++ codes)
                  × (next.options ≡ index.options)
                  × (next.bins ≡ bins)
                  × IsValid times next)))

  module _ (codes : List ℕ) (index : CuckooIndex Double) (valid : IsValid times index)
      (fits : length (index.hashes ++ codes) ≤ index.options.num_input) where
    abbrev start : List ℕ
    start = first_candidates (length index.hashes) (length codes)

    outcome :
        (out : Tried
          (index.hashes ++ codes)
          (num_bins times index.options)
          index.options.num_hash
          start
          index.bins
          (try_all
            (index.hashes ++ codes)
            (num_bins times index.options)
            index.options.num_hash
            index.options.max_try_count
            start
            index.bins))
        × Tries
            (index.hashes ++ codes)
            (num_bins times index.options)
            index.options.num_hash
            index.options.max_try_count
            start
            index.bins
            out.placed
            out.next
    outcome =
        try_all-Tried (index.hashes ++ codes) (num_bins times index.options) index.options.num_hash
          valid.bins_pos valid.hash_pos valid.hash_few (omega (arith, fits, valid.inputs_few))
          index.options.max_try_count start index.bins
          (first_candidates-Candidates (length (index.hashes ++ codes)) index.options.num_hash
            (length index.hashes) (length codes) valid.hash_pos
            (omega (arith, fits, valid.inputs_few))
            (omega (arith, length-append index.hashes codes)))
          (Placed-append index.hashes codes (num_bins times index.options) index.options.num_hash
            index.bins valid.placed)

    abbrev tried :
        Tried
          (index.hashes ++ codes)
          (num_bins times index.options)
          index.options.num_hash
          start
          index.bins
          (try_all
            (index.hashes ++ codes)
            (num_bins times index.options)
            index.options.num_hash
            index.options.max_try_count
            start
            index.bins)
    tried = outcome.0

    guard : leb (length (index.hashes ++ codes)) index.options.num_input ≡ true
    guard = ground (arith, fits)

    -- One place for each old input, and one for each new one.
    once_more :
        (k : ℕ) (stash : List ℕ)
        → count k stash ≡ count k tried.next + count k index.stash
        → count k tried.placed + count k stash
          ≡ (if ltb k (length (index.hashes ++ codes)) then 1 else 0)
    once_more k stash h = ground (
      arith,
      h,
      tried.counts k,
      valid.once k,
      length-append index.hashes codes,
      count-first_candidates k (length index.hashes) (length codes)
          (omega (arith, fits, valid.inputs_few, length-append index.hashes codes)),
    )

    insert-fitting : Inserts codes index (insert times codes index)
    unfolding insert
    insert-fitting = inr (
      omega (arith, fits, length-append index.hashes codes),
      tried.placed,
      tried.next,
      outcome.1,
      elim (Bool-cases (ltb (free index.stash) (length tried.next))) [
        | inl full ↦
            let short : free index.stash < length tried.next = ground (arith, full) in
            inl (
              rw (guard, insert)
                  (rw (tried.gives, insert)
                    (rw
                      (put_all-full (length (index.hashes ++ codes)) index.options.num_hash
                        tried.next index.stash (omega (arith, fits, valid.inputs_few))
                        tried.candidates short)
                      refl)),
              short,
            )
        | inr room ↦
            let stored =
              put_all-Stored (length (index.hashes ++ codes)) index.options.num_hash tried.next
                index.stash (omega (arith, fits, valid.inputs_few)) tried.candidates
                (ground (arith, room)) in
            inr (
              ground (arith, room),
              record index {
                bins = tried.placed;
                stash = stored.next;
                hashes = index.hashes ++ codes;
              },
              rw (guard, insert) (rw (tried.gives, insert) (rw stored.gives refl)),
              refl,
              refl,
              refl,
              record {
                inputs_few = valid.inputs_few;
                hash_pos = valid.hash_pos;
                hash_few = valid.hash_few;
                bins_pos = valid.bins_pos;
                fits = fits;
                placed = tried.is_placed;
                once = λ k. once_more k stored.next (stored.counts k);
              },
            )
      ],
    )

  -- `Insert` of any codes into an index with one to five hash functions, at least one bin and
  -- fewer than 2 ^ 56 inputs announced, in which each input given so far is in one bin, which it
  -- hashes to, or one stash slot. It refuses exactly more inputs than were announced. Otherwise it
  -- makes at most `max_try_count` tries, until nothing is left: each puts every candidate into the
  -- bin of its hash function, and each input that this takes out of a bin goes on to its next hash
  -- function. It throws exactly when more are left than the stash has free slots; if not, the bins
  -- are those of the tries, and each input, also the new ones, is in one bin, which it hashes to, or
  -- one stash slot. It never reads out of bounds or divides by zero.
  pub insert-Inserts :
      (codes : List ℕ) (index : CuckooIndex Double)
      → IsValid times index
      → Inserts codes index (insert times codes index)
  unfolding insert
  insert-Inserts codes index valid =
      elim (Bool-cases (leb (length (index.hashes ++ codes)) index.options.num_input)) [
        | inr e ↦ inl (rw (e, insert) refl, ground (arith, e, length-append index.hashes codes))
        | inl e ↦ insert-fitting codes index valid (ground (arith, e))
      ]

  -- The constructor, with one to five hash functions, a positive number of bins and fewer than
  -- 2 ^ 56 inputs announced, gives an index in which each input given so far, none, is in its place.
  pub new-IsValid :
      (options : Options Double)
      → options.num_input < 2 ^ 56
      → 0 < options.num_hash
      → options.num_hash ≤ 5
      → 0 < num_bins times options
      → (index : CuckooIndex Double) × (new times options ≡ ok index)
        × (index.options ≡ options)
        × (index.hashes ≡ [])
        × (free index.stash ≡ options.num_stash)
        × IsValid times index
  unfolding new
  new-IsValid options small hash_pos hash_few bins_pos = (
    record {
      options = options;
      bins = replicate (num_bins times options) k_empty;
      stash = replicate options.num_stash k_empty;
      hashes = [];
    },
    rw (passes options.num_hash hash_pos hash_few, new) refl,
    refl,
    refl,
    free-replicate options.num_stash,
    record {
      inputs_few = small;
      hash_pos = hash_pos;
      hash_few = hash_few;
      bins_pos = bins_pos;
      fits = omega arith;
      placed = record {
        size = length-replicate (num_bins times options) k_empty;
        good = λ i b at_i full. absurd (all_empty (num_bins times options) i b at_i full);
        home = λ i b at_i full. absurd (all_empty (num_bins times options) i b at_i full);
      };
      once = λ k.
          ground (
            arith,
            count-replicate k (num_bins times options),
            count-replicate k options.num_stash,
          );
    },
  )
    where
      passes :
          (n : ℕ) → 0 < n → n ≤ 5 → leb (((n + (2 ^ 64 - 1)) % 2 ^ 64 * 2 + 8) % 2 ^ 64) 16 ≡ true
      passes n h few = ground arith
