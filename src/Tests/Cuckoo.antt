-- ===== src/Tests/Cuckoo.antt =====
-- The cuckoo index (yacl/coding/batch) with three inputs, three bins and two hash functions.
use yacl_r.Base.{
  ℕ, ◌+◌, ◌*◌, ◌^◌, ◌≤◌, ◌≡◌, ◌≢◌, refl, sym, ap, ◌∙◌, subst, false, List, [], ◌∷◌, some, ok, err,
  runtime_error, arith, get_elem?, inl, inr, ◌⊎◌,
}
use yacl_r.Cuckoo.Bin.{k_empty, is_empty, hash_idx, input_idx, encode, encode_lem}
use yacl_r.Cuckoo.Insert.{IsValid, Inserts, insert-Inserts, new-IsValid}
use yacl_r.Cuckoo.Lookup.{min_colliding_hash_idx-least}
use yacl_r.Cuckoo.{
  Options, CuckooIndex, num_bins, new, insert, target, colliding_loop, min_colliding_hash_idx,
  get_hash, remainder, put_to_stash, put_all, first_candidates, bin_of, evicted, place_all, try_all,
}

-- The factor is the number of bins for each input.
abbrev times : ℕ → ℕ → ℕ
times n factor = n * factor

abbrev options : Options ℕ
options = record { num_input = 3; num_stash = 1; num_hash = 2; scale_factor = 1; max_try_count = 4 }

-- Codes that hash to 0 by the first function; the second ones go to bin 1, 2 and 0.
abbrev codes : List ℕ
codes = 2 ^ 64 ∷ (2 * 2 ^ 64) ∷ (3 * 2 ^ 64) ∷ []

abbrev empty_index : CuckooIndex ℕ
empty_index = record {
  options = options;
  bins = k_empty ∷ k_empty ∷ k_empty ∷ [];
  stash = k_empty ∷ [];
  hashes = [];
}

made : new times options ≡ ok empty_index
unfolding new num_bins
made = refl

-- The input 2 by its first function, the inputs 0 and 1 by their second.
abbrev full_index : CuckooIndex ℕ
full_index = record {
  options = options;
  bins = 2 ∷ 2 ^ 56 ∷ (2 ^ 56 + 1) ∷ [];
  stash = k_empty ∷ [];
  hashes = codes;
}

inserted : insert times codes empty_index ≡ ok full_index
unfolding insert num_bins first_candidates try_all place_all bin_of evicted get_hash remainder
    input_idx hash_idx encode is_empty put_all put_to_stash
inserted = refl

-- A stash that is too small.
too_full : insert times (0 ∷ 0 ∷ 0 ∷ []) (record empty_index { stash = [] }) ≡ err runtime_error
unfolding insert num_bins first_candidates try_all place_all bin_of evicted get_hash remainder
    input_idx hash_idx encode is_empty put_all put_to_stash
too_full = refl

full_bin : is_empty (2 ^ 56) ≡ false
unfolding is_empty
full_bin = refl

least : min_colliding_hash_idx times 1 full_index ≡ ok 1
unfolding min_colliding_hash_idx num_bins colliding_loop target get_hash remainder input_idx
least = refl

encode_lem_example :
    (input_idx (encode 2 1) ≡ 2) × (hash_idx (encode 2 1) ≡ 1) × (is_empty (encode 2 1) ≡ false)
encode_lem_example = encode_lem 2 1 (omega arith) (omega arith)

ok-inj : {a b : CuckooIndex ℕ} → ok a ≡ ok b → a ≡ b
ok-inj h = ap (λ out. elim out as (λ r. CuckooIndex ℕ) [ ok a ↦ a | err e ↦ empty_index ]) h

empty_index-IsValid : IsValid times empty_index
unfolding num_bins
empty_index-IsValid =
    let (index, gives, same, hashes, stash, valid) =
      new-IsValid times options (omega arith) (omega arith) (omega arith) (omega arith) in
    subst (IsValid times) (ok-inj (sym gives ∙ made)) valid

insert-Inserts_example : Inserts times codes empty_index (insert times codes empty_index)
insert-Inserts_example = insert-Inserts times codes empty_index empty_index-IsValid

full_index-IsValid : IsValid times full_index
full_index-IsValid = elim (insert-Inserts times codes empty_index empty_index-IsValid) [
  | inl (refused, more) ↦ absurd (ground (arith, sym refused ∙ inserted))
  | inr (few, bins, left, tries, inl (threw, short)) ↦ absurd (ground (arith, sym threw ∙ inserted))
  | inr (few, bins, left, tries, inr (room, next, gives, hashes, same, tried, valid)) ↦
      subst (IsValid times) (ok-inj (sym gives ∙ inserted)) valid
]

min_colliding_hash_idx-least_example :
    (found : ℕ) × (code : ℕ) × (min_colliding_hash_idx times 1 full_index ≡ ok found)
    × (found ≤ hash_idx (2 ^ 56))
    × (get_elem? codes (input_idx (2 ^ 56)) ≡ some code)
    × (target code (num_bins times options) found ≡ ok 1)
    × ((found ≤ 0) ⊎ (target code (num_bins times options) 0 ≢ ok 1))
min_colliding_hash_idx-least_example =
    min_colliding_hash_idx-least times full_index 1 (2 ^ 56) 0 full_index-IsValid refl full_bin
