-- ===== src/Channel/Chunks/Reassemble.antt =====
-- The chunks of a value, in any order and any number of times, put the value together again.
use yacl_r.Base.{
  ℕ, zero, suc, ◌+◌, ◌-◌, ◌*◌, ◌≤◌, ◌<◌, ◌≡◌, ◌≢◌, refl, sym, ap, subst, ◌∙◌, min, true, false,
  ◌||◌, List, [], ◌∷◌, some, arith, Bytes, ltb, ◌==◌, if◌then◌else◌, length, drop, get_elem?,
  length-take, length-drop, Bool-cases, inl, inr,
}
use yacl_r.Base.Index.{get_elem?-take, get_elem?-drop}
use yacl_r.Channel.State.{ChunkedMessage}
use yacl_r.Channel.Receive.{add_chunk, mem}
use yacl_r.Channel.Chunks.Splice.{
  splice, copy_at-splice, length-splice, splice_inside, splice_before, splice_after,
}
use yacl_r.Channel.Chunks.{chunk_bytes}

module _ (b : ℕ) (v : Bytes) (b_pos : 0 < b) where
  -- The size of chunk `i`.
  abbrev pub size : ℕ → ℕ
  size i = min b (length v - i * b)

  length-chunk_bytes : (i : ℕ) → length (chunk_bytes b v i) ≡ size i
  unfolding chunk_bytes
  length-chunk_bytes i = omega (arith, length-take (size i) (drop (i * b) v), length-drop (i * b) v)

  get_elem?-chunk_bytes :
      (i q : ℕ) → q < size i → get_elem? (chunk_bytes b v i) q ≡ get_elem? v (i * b + q)
  unfolding chunk_bytes
  get_elem?-chunk_bytes i q h =
      get_elem?-take (size i) (drop (i * b) v) q h ∙ get_elem?-drop (i * b) v q (i * b + q) refl

  pub offsets_apart : (i j : ℕ) → j < i → j * b + b ≤ i * b
  offsets_apart i j h = grind arith

  -- How many bytes of the first `n` chunks have not come.
  pub missing : ℕ → List ℕ → ℕ
  missing zero r = 0
  missing (suc n) r = (if mem (n * b) r then 0 else size n) + missing n r

  pub missing-nil : (n : ℕ) → missing n [] ≡ min (length v) (n * b)
  unfolding missing mem
  missing-nil zero = omega arith
  missing-nil (suc n) = omega (arith, missing-nil n)

  missing-cons_later : (n i : ℕ) (r : List ℕ) → n ≤ i → missing n ((i * b) ∷ r) ≡ missing n r
  unfolding missing mem
  missing-cons_later zero i r h = refl
  missing-cons_later (suc n) i r h =
      ground (arith, missing-cons_later n i r (omega arith), offsets_apart i n h)

  missing-cons :
      (n i : ℕ) (r : List ℕ)
      → i < n
      → mem (i * b) r ≡ false
      → missing n ((i * b) ∷ r) + size i ≡ missing n r
  unfolding missing mem
  missing-cons zero i r h new = absurd (omega arith)
  missing-cons (suc n) i r h new = elim (Bool-cases (i == n)) [
    | inl e ↦
        let here : i ≡ n = ground arith in
        rw here (
          ground (
            arith,
            missing-cons_later n n r (omega arith),
            subst (λ k. mem (k * b) r ≡ false) here new,
          ))
    | inr e ↦
        let below : i < n = ground arith in
        ground (arith, missing-cons n i r below new, offsets_apart n i below)
  ]

  pub missing_none :
      (n i : ℕ) (r : List ℕ) → i < n → size i ≢ 0 → missing n r ≡ 0 → mem (i * b) r ≡ true
  unfolding missing
  missing_none zero i r h pos all_there = absurd (omega arith)
  missing_none (suc n) i r h pos all_there = elim (Bool-cases (i == n)) [
    | inl e ↦
        let here : i ≡ n = ground arith in
        let pos' : size n ≢ 0 = subst (λ k. size k ≢ 0) here pos in rw here (ground arith)
    | inr e ↦ missing_none n i r (ground arith) pos (ground arith)
  ]

  pub missing_all :
      (n : ℕ) (r : List ℕ) → ((i : ℕ) → i < n → mem (i * b) r ≡ true) → missing n r ≡ 0
  unfolding missing
  missing_all zero r h = refl
  missing_all (suc n) r h =
      ground (arith, h n (omega arith), missing_all n r (λ i lt. h i (omega arith)))

  -- The invariant of a message that chunks of `v` are written to, `n` chunks in all.
  pub record Holds (n : ℕ) (t : ChunkedMessage) : Type 0 where
    pub sized : length t.message ≡ length v
    pub counted : t.bytes_written + missing n t.received ≡ length v
    pub agrees :
        (i q : ℕ)
        → mem (i * b) t.received ≡ true
        → q < size i
        → get_elem? t.message (i * b + q) ≡ get_elem? v (i * b + q)

  -- The bytes of chunk `j` after chunk `i` is written.
  splice_same :
      (m : Bytes) (i q : ℕ)
      → length m ≡ length v
      → i * b < length v
      → q < size i
      → get_elem? (splice m (i * b) (chunk_bytes b v i)) (i * b + q) ≡ get_elem? v (i * b + q)
  splice_same m i q e h lt =
      splice_inside m (i * b) (chunk_bytes b v i) q (omega (arith, length-chunk_bytes i))
        (omega (arith, length-chunk_bytes i))
      ∙ get_elem?-chunk_bytes i q lt

  splice_other :
      (m : Bytes) (i j q : ℕ)
      → length m ≡ length v
      → i * b < length v
      → q < size j
      → i ≢ j
      → get_elem? (splice m (i * b) (chunk_bytes b v i)) (j * b + q) ≡ get_elem? m (j * b + q)
  splice_other m i j q e h lt ne = elim (Bool-cases (ltb j i)) [
    | inl lower ↦
        splice_before m (i * b) (chunk_bytes b v i) (j * b + q)
          (omega (arith, length-chunk_bytes i)) (omega (arith, offsets_apart i j (ground arith)))
    | inr not_lower ↦
        splice_after m (i * b) (chunk_bytes b v i) (j * b + q) (omega (arith, length-chunk_bytes i))
          (omega (arith, length-chunk_bytes i, offsets_apart j i (ground arith)))
  ]

  -- What `add_chunk` makes of a chunk that is new.
  abbrev with_chunk : ChunkedMessage → ℕ → ChunkedMessage
  with_chunk t i = record {
    received = (i * b) ∷ t.received;
    bytes_written = t.bytes_written + length (chunk_bytes b v i);
    message = splice t.message (i * b) (chunk_bytes b v i);
  }

  add_chunk_new :
      (n i : ℕ) (t : ChunkedMessage)
      → i * b < length v
      → Holds n t
      → mem (i * b) t.received ≡ false
      → add_chunk t (i * b) (chunk_bytes b v i) ≡ some (with_chunk t i)
  unfolding add_chunk
  add_chunk_new n i t h inv new =
      let fits : i * b + length (chunk_bytes b v i) ≤ length t.message =
        omega (arith, length-chunk_bytes i, inv.sized) in
      ground (arith, copy_at-splice t.message (i * b) (chunk_bytes b v i) fits)

  with_chunk-agrees :
      (n i : ℕ) (t : ChunkedMessage)
      → i * b < length v
      → Holds n t
      → (j q : ℕ) → mem (j * b) ((i * b) ∷ t.received) ≡ true
      → q < size j
      → get_elem? (with_chunk t i).message (j * b + q) ≡ get_elem? v (j * b + q)
  unfolding mem
  with_chunk-agrees n i t h inv j q there lt = elim (Bool-cases (i == j)) [
    | inl e ↦
        let here : i ≡ j = ground arith in
        subst (λ k. get_elem? (with_chunk t i).message (k * b + q) ≡ get_elem? v (k * b + q)) here
          (splice_same t.message i q inv.sized h (subst (λ k. q < size k) (sym here) lt))
    | inr e ↦
        let ne : i ≢ j = ground arith in
        splice_other t.message i j q inv.sized h lt ne
        ∙ inv.agrees j q
            (elim (Bool-cases (ltb j i)) [
              | inl lower ↦ ground (arith, offsets_apart i j (ground arith))
              | inr not_lower ↦ ground (arith, offsets_apart j i (ground arith))
            ])
            lt
  ]

  with_chunk-Holds :
      (n i : ℕ) (t : ChunkedMessage)
      → i < n
      → i * b < length v
      → Holds n t
      → mem (i * b) t.received ≡ false
      → Holds n (with_chunk t i)
  with_chunk-Holds n i t lt h inv new = record {
    sized =
        length-splice t.message (i * b) (chunk_bytes b v i)
          (omega (arith, length-chunk_bytes i, inv.sized))
        ∙ inv.sized;
    counted = omega (arith, inv.counted, missing-cons n i t.received lt new, length-chunk_bytes i);
    agrees = with_chunk-agrees n i t h inv;
  }

  -- The outcome of one chunk.
  pub record Adds (n i : ℕ) (t : ChunkedMessage) : Type 0 where
    pub result : ChunkedMessage
    pub added : add_chunk t (i * b) (chunk_bytes b v i) ≡ some result
    pub holds : Holds n result
    pub grows : (x : ℕ) → mem x result.received ≡ (i * b == x || mem x t.received)

  pub add_chunk-Adds :
      (n i : ℕ) (t : ChunkedMessage) → i < n → i * b < length v → Holds n t → Adds n i t
  unfolding mem
  add_chunk-Adds n i t lt h inv = elim (Bool-cases (mem (i * b) t.received)) [
    | inl e ↦ record {
      result = t;
      added = (unfold add_chunk in ground arith);
      holds = inv;
      grows = λ x. elim (Bool-cases (i * b == x)) [
        | inl d ↦
            let here : i * b ≡ x = ground arith in ground (arith, ap (λ y. mem y t.received) here)
        | inr d ↦ ground arith
      ];
    }
    | inr e ↦ record {
      result = with_chunk t i;
      added = add_chunk_new n i t h inv e;
      holds = with_chunk-Holds n i t lt h inv e;
      grows = λ x. refl;
    }
  ]
