-- ===== src/Cuckoo/Place.antt =====
-- One try of `Insert` (yacl/coding/batch/cuckoo_index.cc), and all of them: every input that was in
-- a bin or a candidate is in one afterwards, and every bin is one that its input hashes to.
use yacl_r.Base.{
  ℕ, zero, suc, ◌+◌, ◌*◌, ◌/◌, ◌%◌, ◌^◌, ◌<◌, ◌≤◌, ◌≡◌, refl, sym, ap, ◌∙◌, true, false, List, [],
  ◌∷◌, some, Result, ok, arith, length, get_elem?, get_elem?-some, get_elem?-set, length-set, set,
  ◌==◌, leb, if◌then◌else◌, Bool-cases, inl, inr, ◌⊎◌, subst,
}
use native.Mathlib.Nat.{mod-lt}
use yacl_r.Cuckoo.Bin.{is_empty, hash_idx, input_idx, encode, encode_lem}
use yacl_r.Cuckoo.Count.{Candidate, Candidates, has, count, count-set, has-full, has-empty}
use yacl_r.Cuckoo.{get_hash, remainder, bin_of, evicted, place_all, try_all}

-- Every bin that is not empty holds an input that hashes to it, by one of the hash functions.
pub record Placed (hashes : List ℕ) (num_bins num_hash : ℕ) (bins : List ℕ) : Type 0 where
  pub size : length bins ≡ num_bins
  pub good :
      (i b : ℕ)
      → get_elem? bins i ≡ some b
      → is_empty b ≡ false
      → Candidate (length hashes) num_hash b
  pub home :
      (i b : ℕ) → get_elem? bins i ≡ some b → is_empty b ≡ false → bin_of hashes num_bins b ≡ ok i

-- What is left to place once a candidate has taken the bin `old`: an input that was there goes on to
-- its next hash function.
abbrev pub carried : ℕ → ℕ → List ℕ → List ℕ
carried num_hash old next =
    if is_empty old then next else encode (input_idx old) ((hash_idx old + 1) % num_hash) ∷ next

-- One try: the candidates `cs` take their bins one after the other, which turns `bins` into `placed`
-- and leaves `next`.
pub data Places (hashes : List ℕ) (num_bins num_hash : ℕ)
    : List ℕ → List ℕ → List ℕ → List ℕ → Type 0 where
  all_placed : (bins : List ℕ) → Places hashes num_bins num_hash [] bins bins []
  takes_bin :
      (c i old : ℕ) (cs bins placed next : List ℕ)
      → bin_of hashes num_bins c ≡ ok i
      → get_elem? bins i ≡ some old
      → Places hashes num_bins num_hash cs (set bins i c) placed next
      → Places hashes num_bins num_hash (c ∷ cs) bins placed (carried num_hash old next)

-- At most the given number of tries, each on what the one before left, until nothing is left.
pub data Tries (hashes : List ℕ) (num_bins num_hash : ℕ)
    : ℕ → List ℕ → List ℕ → List ℕ → List ℕ → Type 0 where
  no_more_tries : (cs bins : List ℕ) → Tries hashes num_bins num_hash 0 cs bins bins cs
  nothing_left : (n : ℕ) (bins : List ℕ) → Tries hashes num_bins num_hash n [] bins bins []
  one_try :
      (n c : ℕ) (cs bins placed next last left : List ℕ)
      → Places hashes num_bins num_hash (c ∷ cs) bins placed next
      → Tries hashes num_bins num_hash n next placed last left
      → Tries hashes num_bins num_hash (suc n) (c ∷ cs) bins last left

-- What a try, or all of them, make of bins and candidates.
pub record Tried (hashes : List ℕ) (num_bins num_hash : ℕ) (cs bins : List ℕ)
    (out : Result (List ℕ × List ℕ)) : Type 0 where
  pub placed : List ℕ
  pub next : List ℕ
  pub gives : out ≡ ok (placed, next)
  pub is_placed : Placed hashes num_bins num_hash placed
  pub candidates : Candidates (length hashes) num_hash next
  pub fewer : length next ≤ length cs
  pub counts : (k : ℕ) → count k placed + count k next ≡ count k bins + count k cs

pub remainder-ok : (a b : ℕ) → 0 < b → (r : ℕ) × (remainder a b ≡ ok r) × (r < b)
unfolding remainder
remainder-ok a zero h = absurd (omega arith)
remainder-ok a (suc b) h = (a % suc b, refl, mod-lt a h)

remainder_lem : (a b : ℕ) → 0 < b → remainder a b ≡ ok (a % b)
unfolding remainder
remainder_lem a zero h = absurd (omega arith)
remainder_lem a (suc b) h = refl

pub get_hash-ok : (code idx : ℕ) → idx < 5 → (h : ℕ) × (get_hash code idx ≡ ok h)
unfolding get_hash
get_hash-ok code idx h =
    let fits : leb (idx * 2 + 8) 16 ≡ true = ground arith in
    (code / 2 ^ (16 * idx) % 2 ^ 64, rw fits refl)

module _ (hashes : List ℕ) (num_bins num_hash : ℕ) (bins_pos : 0 < num_bins)
    (hash_pos : 0 < num_hash) (hash_few : num_hash ≤ 5) (few : length hashes < 2 ^ 56) where
  bin_of-ok :
      (c : ℕ)
      → Candidate (length hashes) num_hash c
      → (i : ℕ) × (bin_of hashes num_bins c ≡ ok i) × (i < num_bins)
  unfolding bin_of
  bin_of-ok c candidate =
      let (code, at_input) = get_elem?-some hashes (input_idx c) candidate.known in
      let (h, hashed) = get_hash-ok code (hash_idx c) (omega (arith, candidate.hashed)) in
      let (r, rest, below) = remainder-ok h num_bins bins_pos in
      (r, rw (at_input, bin_of) (rw hashed rest), below)

  set-Placed :
      (bins : List ℕ) (i c : ℕ)
      → Candidate (length hashes) num_hash c
      → bin_of hashes num_bins c ≡ ok i
      → i < num_bins
      → Placed hashes num_bins num_hash bins
      → Placed hashes num_bins num_hash (set bins i c)
  set-Placed bins i c candidate hashes_to below placed = record {
    size = length-set bins i c ∙ placed.size;
    good = λ j b at_j full. elim (entry j b at_j) [
      | inl (here, same) ↦ subst (Candidate (length hashes) num_hash) (sym same) candidate
      | inr old ↦ placed.good j b old full
    ];
    home = λ j b at_j full. elim (entry j b at_j) [
      | inl (here, same) ↦ ap (bin_of hashes num_bins) same ∙ hashes_to ∙ ap ok here
      | inr old ↦ placed.home j b old full
    ];
  }
    where
      entry :
          (j b : ℕ)
          → get_elem? (set bins i c) j ≡ some b
          → ((i ≡ j) × (b ≡ c)) ⊎ (get_elem? bins j ≡ some b)
      entry j b at_j =
          let read = get_elem?-set bins i j c (omega (arith, below, placed.size)) in
          elim (Bool-cases (i == j)) [
            | inl e ↦ inl (same i j e, some-inj (sym at_j ∙ read ∙ chosen e))
            | inr e ↦ inr (sym (read ∙ other e) ∙ at_j)
          ]
        where
          same : (i j : ℕ) → (i == j) ≡ true → i ≡ j
          same i j e = ground arith

          some-inj : {a b : ℕ} → some a ≡ some b → a ≡ b
          some-inj h = ground arith

          chosen : (i == j) ≡ true → (if i == j then some c else get_elem? bins j) ≡ some c
          chosen e = rw e refl

          other :
              (i == j) ≡ false → (if i == j then some c else get_elem? bins j) ≡ get_elem? bins j
          other e = rw e refl

  evicted-ok :
      (old : ℕ) (rest : List ℕ)
      → (is_empty old ≡ false → Candidate (length hashes) num_hash old)
      → Candidates (length hashes) num_hash rest
      → (next : List ℕ) × (evicted num_hash old rest ≡ ok next)
        × Candidates (length hashes) num_hash next
        × (length next ≤ 1 + length rest)
        × (next ≡ carried num_hash old rest)
        × ((k : ℕ) → count k next ≡ has k old + count k rest)
  unfolding evicted count
  evicted-ok old rest candidate cs = elim (Bool-cases (is_empty old)) [
    | inl e ↦ (
      rest,
      rw (e, evicted) refl,
      cs,
      omega arith,
      rw e refl,
      λ k. omega (arith, has-empty k old e),
    )
    | inr e ↦
        let here = candidate e in
        let h = (hash_idx old + 1) % num_hash in
        let again : remainder (hash_idx old + 1) num_hash ≡ ok h =
          remainder_lem (hash_idx old + 1) num_hash hash_pos in
        let below : h < num_hash = mod-lt (hash_idx old + 1) hash_pos in
        let (same_input, next_hash, full) =
          encode_lem (input_idx old) h (omega (arith, here.known)) (omega arith) in
        (
          encode (input_idx old) h ∷ rest,
          rw (e, evicted) (rw again refl),
          (
            record {
              full = full;
              known = omega (arith, same_input, here.known);
              hashed = omega (arith, next_hash, below);
            },
            cs,
          ),
          omega arith,
          rw e refl,
          λ k.
              ap (λ t. t + count k rest)
                (has-full k _ full
                  ∙ ap (λ t. if t == k then 1 else 0) same_input
                  ∙ sym (has-full k old e)),
        )
  ]

  place_all-Tried :
      (cs bins : List ℕ)
      → Candidates (length hashes) num_hash cs
      → Placed hashes num_bins num_hash bins
      → (out : Tried hashes num_bins num_hash cs bins (place_all hashes num_bins num_hash cs bins))
        × Places hashes num_bins num_hash cs bins out.placed out.next
  unfolding place_all count
  place_all-Tried [] bins none_left placed = (
    record {
      placed = bins;
      next = [];
      gives = refl;
      is_placed = placed;
      candidates = tt;
      fewer = omega arith;
      counts = λ k. refl;
    },
    all_placed bins,
  )
  place_all-Tried (c ∷ cs) bins (candidate, others) placed =
      let (i, hashes_to, below) = bin_of-ok c candidate in
      let (old, at_i) = get_elem?-some bins i (omega (arith, below, placed.size)) in
      let (rest, places) =
        place_all-Tried cs (set bins i c) others
          (set-Placed bins i c candidate hashes_to below placed) in
      let (next, again, candidates, few_more, carries, count_next) =
        evicted-ok old rest.next (placed.good i old at_i) rest.candidates in
      (
        record {
          placed = rest.placed;
          next = next;
          gives =
              rw (hashes_to, place_all)
                (rw (at_i, place_all) (rw (rest.gives, place_all) (rw (again, place_all) refl)));
          is_placed = rest.is_placed;
          candidates = candidates;
          fewer = omega (arith, few_more, rest.fewer);
          counts = λ k. omega (arith, rest.counts k, count_next k, count-set k bins i old c at_i);
        },
        subst (Places hashes num_bins num_hash (c ∷ cs) bins rest.placed) (sym carries)
            (takes_bin c i old cs bins rest.placed rest.next hashes_to at_i places),
      )

  -- All tries together; a try that leaves nothing ends them.
  pub try_all-Tried :
      (n : ℕ) (cs bins : List ℕ)
      → Candidates (length hashes) num_hash cs
      → Placed hashes num_bins num_hash bins
      → (out : Tried hashes num_bins num_hash cs bins (try_all hashes num_bins num_hash n cs bins))
        × Tries hashes num_bins num_hash n cs bins out.placed out.next
  unfolding try_all count
  try_all-Tried zero cs bins candidates placed = (
    record {
      placed = bins;
      next = cs;
      gives = refl;
      is_placed = placed;
      candidates = candidates;
      fewer = omega arith;
      counts = λ k. refl;
    },
    no_more_tries cs bins,
  )
  try_all-Tried (suc n) [] bins candidates placed = (
    record {
      placed = bins;
      next = [];
      gives = refl;
      is_placed = placed;
      candidates = tt;
      fewer = omega arith;
      counts = λ k. refl;
    },
    nothing_left (suc n) bins,
  )
  try_all-Tried (suc n) (c ∷ cs) bins candidates placed =
      let (first, places) = place_all-Tried (c ∷ cs) bins candidates placed in
      let (rest, tries) =
        try_all-Tried n first.next first.placed first.candidates first.is_placed in
      (
        record {
          placed = rest.placed;
          next = rest.next;
          gives = rw (first.gives, try_all) rest.gives;
          is_placed = rest.is_placed;
          candidates = rest.candidates;
          fewer = omega (arith, rest.fewer, first.fewer);
          counts = λ k. omega (arith, rest.counts k, first.counts k);
        },
        one_try n c cs bins first.placed first.next rest.placed rest.next places tries,
      )
