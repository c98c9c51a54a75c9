-- ===== src/Cuckoo/Count.antt =====
-- How often an input stands in a list of bins.
use yacl_r.Base.{
  ℕ, zero, suc, ◌+◌, ◌^◌, ◌<◌, ◌≤◌, ◌≡◌, refl, ap, ◌∙◌, true, false, List, [], ◌∷◌, some, Result,
  ok, err, runtime_error, arith, length, get_elem?, set, replicate, ◌==◌, if◌then◌else◌, Bool-cases,
  inl, inr,
}
use yacl_r.Cuckoo.Bin.{k_empty, is_empty, input_idx, hash_idx}
use yacl_r.Cuckoo.{put_to_stash, put_all}

-- 1 for a bin that holds input `k`, 0 for another one.
unfoldable pub has : ℕ → ℕ → ℕ
has k bin = if is_empty bin then 0 else if input_idx bin == k then 1 else 0

unfoldable pub count : ℕ → List ℕ → ℕ
unfolding has
count k [] = 0
count k (b ∷ r) = has k b + count k r

pub count-set :
    (k : ℕ) (bins : List ℕ) (i old new : ℕ)
    → get_elem? bins i ≡ some old
    → count k (set bins i new) + has k old ≡ count k bins + has k new
unfolding count
count-set k [] i old new h = absurd (ground arith)
count-set k (b ∷ r) zero old new h =
    let same : b ≡ old = ground arith in omega (arith, ap (has k) same)
count-set k (b ∷ r) (suc i) old new h = omega (arith, count-set k r i old new h)

pub count-replicate : (k n : ℕ) → count k (replicate n k_empty) ≡ 0
unfolding count has is_empty
count-replicate k zero = refl
count-replicate k (suc n) = omega (arith, count-replicate k n)

pub has-full :
    (k bin : ℕ) → is_empty bin ≡ false → has k bin ≡ (if input_idx bin == k then 1 else 0)
unfolding has
has-full k bin h = rw h refl

pub has-empty : (k bin : ℕ) → is_empty bin ≡ true → has k bin ≡ 0
unfolding has
has-empty k bin h = rw h refl

-- The empty slots.
unfoldable pub free : List ℕ → ℕ
free [] = 0
free (b ∷ r) = (if is_empty b then 1 else 0) + free r

pub free-replicate : (n : ℕ) → free (replicate n k_empty) ≡ n
unfolding free is_empty
free-replicate zero = refl
free-replicate (suc n) = omega (arith, free-replicate n)

pub has-encoded :
    (k bin input : ℕ)
    → is_empty bin ≡ false
    → input_idx bin ≡ input
    → has k bin ≡ (if input == k then 1 else 0)
has-encoded k bin input h e = has-full k bin h ∙ ap (λ t. if t == k then 1 else 0) e

pub full_of_small : (input : ℕ) → input + 1 < 2 ^ 56 → is_empty input ≡ false
unfolding is_empty
full_of_small input h = not_same input (omega arith)
  where
    not_same : (n : ℕ) → n < k_empty → (n == k_empty) ≡ false
    not_same n h = ground arith

pub has-input : (k input : ℕ) → input + 1 < 2 ^ 56 → has k input ≡ (if input == k then 1 else 0)
unfolding input_idx
has-input k input h = has-encoded k input input (full_of_small input h) (omega arith)

-- A stash in which `left` slots fewer are free, and that holds what `adds` counts besides.
pub record Stored (adds : ℕ → ℕ) (left : ℕ) (stash : List ℕ) (out : Result (List ℕ)) : Type 0 where
  pub next : List ℕ
  pub gives : out ≡ ok next
  pub same_length : length next ≡ length stash
  pub takes : free next + left ≡ free stash
  pub counts : (k : ℕ) → count k next ≡ adds k + count k stash

abbrev pub one_of : ℕ → ℕ → ℕ
one_of input k = if input == k then 1 else 0

put_to_stash-Stored :
    (input : ℕ) (stash : List ℕ)
    → input + 1 < 2 ^ 56
    → 0 < free stash
    → Stored (one_of input) 1 stash (put_to_stash input stash)
unfolding put_to_stash free count
put_to_stash-Stored input [] small h = absurd (omega arith)
put_to_stash-Stored input (b ∷ r) small h = elim (Bool-cases (is_empty b)) [
  | inl e ↦ record {
    next = input ∷ r;
    gives = rw (e, put_to_stash) refl;
    same_length = refl;
    takes = rw (e, full_of_small input small) (omega arith);
    counts = λ k. omega (arith, has-empty k b e, has-input k input small);
  }
  | inr e ↦
      let there : 0 < free r = still e h in
      let rest = put_to_stash-Stored input r small there in
      record {
        next = b ∷ rest.next;
        gives = rw (e, put_to_stash) (rw rest.gives refl);
        same_length = ap suc rest.same_length;
        takes = omega (arith, rest.takes);
        counts = λ k. omega (arith, rest.counts k);
      }
]
  where
    still : is_empty b ≡ false → 0 < (if is_empty b then 1 else 0) + free r → 0 < free r
    still e h = ground (arith, e, h)

put_to_stash-full :
    (input : ℕ) (stash : List ℕ) → free stash ≡ 0 → put_to_stash input stash ≡ err runtime_error
unfolding put_to_stash free
put_to_stash-full input [] h = refl
put_to_stash-full input (b ∷ r) h = elim (Bool-cases (is_empty b)) [
  | inl e ↦ absurd (ground (arith, e, h))
  | inr e ↦ rw (e, put_to_stash) (rw (put_to_stash-full input r (ground (arith, e, h))) refl)
]

-- A candidate that is not empty, and holds an input below `n` and one of the hash functions.
pub record Candidate (n num_hash candid : ℕ) : Type 0 where
  pub full : is_empty candid ≡ false
  pub known : input_idx candid < n
  pub hashed : hash_idx candid < num_hash

abbrev pub Candidates : ℕ → ℕ → List ℕ → Type 0
Candidates n num_hash [] = Unit {0}
Candidates n num_hash (c ∷ cs) = Candidate n num_hash c × Candidates n num_hash cs

pub put_all-Stored :
    (n num_hash : ℕ) (left stash : List ℕ)
    → n < 2 ^ 56
    → Candidates n num_hash left
    → length left ≤ free stash
    → Stored (λ k. count k left) (length left) stash (put_all left stash)
unfolding put_all count
put_all-Stored n num_hash [] stash small cs h = record {
  next = stash;
  gives = refl;
  same_length = refl;
  takes = omega arith;
  counts = λ k. omega arith;
}
put_all-Stored n num_hash (c ∷ left) stash small (candidate, cs) h =
    let first =
      put_to_stash-Stored (input_idx c) stash (omega (arith, candidate.known)) (omega arith) in
    let rest = put_all-Stored n num_hash left first.next small cs (omega (arith, first.takes)) in
    record {
      next = rest.next;
      gives = rw (first.gives, put_all) rest.gives;
      same_length = rest.same_length ∙ first.same_length;
      takes = omega (arith, first.takes, rest.takes);
      counts = λ k.
          omega (
            arith,
            rest.counts k,
            first.counts k,
            has-encoded k c (input_idx c) candidate.full refl,
          );
    }

pub put_all-full :
    (n num_hash : ℕ) (left stash : List ℕ)
    → n < 2 ^ 56
    → Candidates n num_hash left
    → free stash < length left
    → put_all left stash ≡ err runtime_error
unfolding put_all
put_all-full n num_hash [] stash small cs h = absurd (omega arith)
put_all-full n num_hash (c ∷ left) stash small (candidate, cs) h =
    elim (Bool-cases (free stash == 0)) [
      | inl e ↦ rw (put_to_stash-full (input_idx c) stash (ground (arith, e)), put_all) refl
      | inr e ↦
          let first =
            put_to_stash-Stored (input_idx c) stash (omega (arith, candidate.known))
              (ground (arith, e)) in
          rw (first.gives, put_all)
            (put_all-full n num_hash left first.next small cs (omega (arith, first.takes)))
    ]
