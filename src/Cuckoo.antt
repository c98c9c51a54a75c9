-- ===== src/Cuckoo.antt =====
-- `CuckooIndex` (yacl/coding/batch/cuckoo_index.h, cuckoo_index.cc). The product of the number of
-- inputs and the scale factor, a `double`, converted to 64 bits, is a parameter.
pub mod Bin
pub mod Count
pub mod Insert
pub mod Lookup
pub mod Place
use yacl_r.Base.{
  ℕ, zero, suc, ◌+◌, ◌-◌, ◌*◌, ◌/◌, ◌%◌, ◌^◌, Bool, true, false, ◌&&◌, List, [], ◌∷◌, ◌++◌, none,
  some, Result, ok, err, Error, runtime_error, enforce_not_met, fault, enforce, or_throw, ◌>>=◌,
  ◌>>◌, if◌then◌else◌, length, get_elem?, set, replicate, ltb, leb, ◌==◌,
}
use yacl_r.Cuckoo.Bin.{k_empty, is_empty, hash_idx, input_idx, encode}

-- `GetHash`: the eight bytes at an offset of `idx` blocks of two bytes, in the order of a
-- little-endian machine. Past the end of the 16 bytes the read is undefined.
unfoldable pub get_hash : ℕ → ℕ → Result ℕ
get_hash code idx = if leb (idx * 2 + 8) 16 then ok (code / 2 ^ (16 * idx) % 2 ^ 64) else err fault

pub record Options (Double : Type 0) : Type 0 where
  pub num_input : ℕ
  pub num_stash : ℕ
  pub num_hash : ℕ
  pub scale_factor : Double
  pub max_try_count : ℕ

pub record CuckooIndex (Double : Type 0) : Type 0 where
  pub options : Options Double
  pub bins : List ℕ
  pub stash : List ℕ
  pub hashes : List ℕ

-- `a % b`, where 0 is a division by zero.
unfoldable pub remainder : ℕ → ℕ → Result ℕ
remainder a zero = err fault
remainder a (suc b) = ok (a % suc b)

unfoldable pub put_to_stash : ℕ → List ℕ → Result (List ℕ)
put_to_stash input [] = err runtime_error
put_to_stash input (bin ∷ r) = elim (is_empty bin) [
  | true ↦ ok (input ∷ r)
  | false ↦ elim (put_to_stash input r) [ err e ↦ err e | ok rest ↦ ok (bin ∷ rest) ]
]

-- The loop after the tries, on the candidates that are left.
unfoldable pub put_all : List ℕ → List ℕ → Result (List ℕ)
unfolding put_to_stash
put_all [] stash = ok stash
put_all (c ∷ cs) stash = elim (put_to_stash (input_idx c) stash) [
  | err e ↦ err e
  | ok next ↦ put_all cs next
]

-- `candidates[i].set_encoded(input_offset + i)`
unfoldable pub first_candidates : ℕ → ℕ → List ℕ
first_candidates offset zero = []
first_candidates offset (suc n) = offset ∷ first_candidates (offset + 1) n

-- `bin_idx` of an encoded candidate.
unfoldable pub bin_of : List ℕ → ℕ → ℕ → Result ℕ
unfolding remainder
bin_of hashes num_bins candid = do
  code ← or_throw (get_elem? hashes (input_idx candid)) fault
  hash ← get_hash code (hash_idx candid)
  remainder hash num_bins

-- What an evicted bin leaves for the next try: itself with the next hash function.
unfoldable pub evicted : ℕ → ℕ → List ℕ → Result (List ℕ)
unfolding remainder
evicted num_hash bin next = elim (is_empty bin) [
  | true ↦ ok next
  | false ↦ do hash ← remainder (hash_idx bin + 1) num_hash; ok (encode (input_idx bin) hash ∷ next)
]

module _ (hashes : List ℕ) (num_bins num_hash : ℕ) where
  -- The loop over `i` of one try, on the candidates that are left; `write_idx` never passes `i`, so
  -- that the candidates of the next try are a list of their own.
  unfoldable pub place_all : List ℕ → List ℕ → Result (List ℕ × List ℕ)
  unfolding bin_of evicted
  place_all [] bins = ok (bins, [])
  place_all (candid ∷ cs) bins = elim (bin_of hashes num_bins candid) [
    | err e ↦ err e
    | ok index ↦ elim (get_elem? bins index) [
      | none ↦ err fault
      | some old ↦ elim (place_all cs (set bins index candid)) [
        | err e ↦ err e
        | ok (placed, rest) ↦ elim (evicted num_hash old rest) [
          | err e ↦ err e
          | ok next ↦ ok (placed, next)
        ]
      ]
    ]
  ]

  -- The `while` loop, with the tries that are left.
  unfoldable pub try_all : ℕ → List ℕ → List ℕ → Result (List ℕ × List ℕ)
  unfolding place_all
  try_all zero candidates bins = ok (bins, candidates)
  try_all (suc n) [] bins = ok (bins, [])
  try_all (suc n) (c ∷ cs) bins = elim (place_all (c ∷ cs) bins) [
    | err e ↦ err e
    | ok (placed, next) ↦ try_all n next placed
  ]

module _ {Double : Type 0} (times : ℕ → Double → ℕ) where
  unfoldable pub num_bins : Options Double → ℕ
  num_bins options =
      let scaled = times options.num_input options.scale_factor in
      if options.num_stash == 0 && ltb options.num_input 256 then (scaled + 8) % 2 ^ 64 else scaled

  -- The constructor. `num_hash - 1` and the product wrap.
  unfoldable pub new : Options Double → Result (CuckooIndex Double)
  unfolding num_bins
  new options = do
    enforce (leb (((options.num_hash + (2 ^ 64 - 1)) % 2 ^ 64 * 2 + 8) % 2 ^ 64) 16)
    ok (record {
      options = options;
      bins = replicate (num_bins options) k_empty;
      stash = replicate options.num_stash k_empty;
      hashes = [];
    })

  unfoldable pub insert : List ℕ → CuckooIndex Double → Result (CuckooIndex Double)
  unfolding first_candidates num_bins try_all put_all
  insert codes index = do
    let hashes = index.hashes ++ codes
    enforce (leb (length hashes) index.options.num_input)
    (bins, left) ←
        try_all hashes (num_bins index.options) index.options.num_hash index.options.max_try_count
          (first_candidates (length index.hashes) (length codes)) index.bins
    stash ← put_all left index.stash
    ok (record index { bins = bins; stash = stash; hashes = hashes })

-- `target`: the bin of a code by the hash function `i`.
unfoldable pub target : ℕ → ℕ → ℕ → Result ℕ
unfolding remainder
target code num_bins i = do hash ← get_hash code i; remainder hash num_bins

-- The loop of `MinCollidingHashIdx` from `i` on, with `n` hash functions left; -1 is 255 in eight
-- bits.
unfoldable pub colliding_loop : ℕ → ℕ → ℕ → ℕ → ℕ → Result ℕ
unfolding target
colliding_loop code num_bins bin_index i zero = ok 255
colliding_loop code num_bins bin_index i (suc n) = elim (target code num_bins i) [
  | err e ↦ err e
  | ok found ↦ elim (found == bin_index) [
    | true ↦ ok (i % 256)
    | false ↦ colliding_loop code num_bins bin_index (i + 1) n
  ]
]

module _ {Double : Type 0} (times : ℕ → Double → ℕ) where
  unfoldable pub min_colliding_hash_idx : ℕ → CuckooIndex Double → Result ℕ
  unfolding num_bins colliding_loop
  min_colliding_hash_idx bin_index index = do
    bin ← or_throw (get_elem? index.bins bin_index) fault
    code ← or_throw (get_elem? index.hashes (input_idx bin)) fault
    colliding_loop code (num_bins times index.options) bin_index 0 index.options.num_hash
