-- ===== src/Channel/Chunks/Order.antt =====
-- Reassembly of chunks that arrive in any order and number (link/transport/channel.cc).
use yacl_r.Base.{
  ℕ, zero, suc, Bool, ◌&&◌, ◌⊎◌, ◌+◌, ◌-◌, ◌*◌, ◌/◌, ◌%◌, ◌^◌, ◌≤◌, ◌<◌, ◌≡◌, refl, ap, subst, true,
  false, ◌||◌, List, [], ◌∷◌, some, arith, Bytes, ltb, ◌==◌, length, get_elem?, Bool-cases, inl,
  inr,
}
use yacl_r.Base.Index.{eq_of_get_elem?}
use yacl_r.Channel.State.{ChunkedMessage}
use yacl_r.Channel.Receive.{mem, is_fully_filled, new_chunked_message}
use yacl_r.Channel.Chunks.{num_chunks, add_chunks}
use yacl_r.Channel.Chunks.Reassemble.{
  Holds, Adds, add_chunk-Adds, missing_none, missing_all, missing-nil, offsets_apart,
}

abbrev pub AllBelow : ℕ → List ℕ → Type 0
AllBelow n [] = Unit {0}
AllBelow n (i ∷ is) = (i < n) × AllBelow n is

-- Every index below `n` is in the list.
abbrev pub all_of : ℕ → List ℕ → Bool
all_of zero is = true
all_of (suc n) is = mem n is && all_of n is

module _ (b : ℕ) (v : Bytes) (b_pos : 0 < b) where
  same_offset : (i j : ℕ) → (i * b == j * b) ≡ (i == j)
  same_offset i j = elim (Bool-cases (i == j)) [
    | inl e ↦ let here : i ≡ j = ground arith in ground (arith, ap (λ k. k * b) here)
    | inr e ↦ elim (Bool-cases (ltb j i)) [
      | inl lower ↦ ground (arith, offsets_apart b v b_pos i j (ground arith))
      | inr not_lower ↦ ground (arith, offsets_apart b v b_pos j i (ground arith))
    ]
  ]

  record Assembles (n : ℕ) (is : List ℕ) (t : ChunkedMessage) : Type 0 where
    result : ChunkedMessage
    added : add_chunks b v is t ≡ some result
    holds : Holds b v b_pos n result
    grows : (j : ℕ) → mem (j * b) result.received ≡ (mem (j * b) t.received || mem j is)

  Assembles-cons :
      (n i : ℕ) (is : List ℕ) (t : ChunkedMessage) (one : Adds b v b_pos n i t)
      → Assembles n is one.result
      → Assembles n (i ∷ is) t
  unfolding add_chunks mem
  Assembles-cons n i is t one more = record {
    result = more.result;
    added = rw (one.added, add_chunks) more.added;
    holds = more.holds;
    grows = λ j. ground (arith, more.grows j, one.grows (j * b), same_offset i j);
  }

  add_chunks-Assembles :
      (n : ℕ) (is : List ℕ) (t : ChunkedMessage)
      → ((i : ℕ) → i < n → i * b < length v)
      → AllBelow n is
      → Holds b v b_pos n t
      → Assembles n is t
  unfolding add_chunks mem
  add_chunks-Assembles n [] t starts all inv = record {
    result = t;
    added = refl;
    holds = inv;
    grows = λ j. ground arith;
  }
  add_chunks-Assembles n (i ∷ is) t starts all inv =
      let one : Adds b v b_pos n i t = add_chunk-Adds b v b_pos n i t all.0 (starts i all.0) inv in
      Assembles-cons n i is t one (add_chunks-Assembles n is one.result starts all.1 one.holds)

  -- Without wrap-around, `num_chunks` divides `num_bytes + b - 1`.
  num_chunks_div : length v + b ≤ 2 ^ 64 → num_chunks b (length v) ≡ (length v + b - 1) / b
  unfolding num_chunks
  num_chunks_div m = ap (λ k. k / b) (omega arith)

  -- The number of chunks is right, where its computation does not wrap.
  num_chunks_start :
      (i : ℕ) → length v + b ≤ 2 ^ 64 → i < num_chunks b (length v) → i * b < length v
  num_chunks_start i m h =
      let h' : i < (length v + b - 1) / b = omega (arith, num_chunks_div m) in grind arith

  num_chunks_end : length v + b ≤ 2 ^ 64 → length v ≤ num_chunks b (length v) * b
  num_chunks_end m = rw (num_chunks_div m) (grind arith)

  new-Holds :
      (alloc : ℕ → Bytes)
      → ((k : ℕ) → length (alloc k) ≡ k)
      → length v + b ≤ 2 ^ 64
      → Holds b v b_pos (num_chunks b (length v)) (new_chunked_message alloc (length v))
  unfolding new_chunked_message
  new-Holds alloc sized m = record {
    sized = sized (length v);
    counted = omega (arith, missing-nil b v b_pos (num_chunks b (length v)), num_chunks_end m);
    agrees = λ i q there. absurd (unfold mem in cc there);
  }

  -- A full message has every chunk.
  chunk_of_full :
      (n i : ℕ) (t : ChunkedMessage)
      → i < n
      → i * b < length v
      → Holds b v b_pos n t
      → is_fully_filled t ≡ true
      → mem (i * b) t.received ≡ true
  unfolding is_fully_filled
  chunk_of_full n i t h s inv full =
      missing_none b v b_pos n i t.received h (omega arith) (ground (arith, inv.counted, inv.sized))

  full_of_chunks :
      (n : ℕ) (t : ChunkedMessage)
      → Holds b v b_pos n t
      → ((i : ℕ) → i < n → mem (i * b) t.received ≡ true)
      → is_fully_filled t ≡ true
  unfolding is_fully_filled
  full_of_chunks n t inv all =
      ground (arith, inv.counted, inv.sized, missing_all b v b_pos n t.received all)

  -- A full message is the value.
  value_of_full :
      (t : ChunkedMessage)
      → length v + b ≤ 2 ^ 64
      → Holds b v b_pos (num_chunks b (length v)) t
      → is_fully_filled t ≡ true
      → t.message ≡ v
  value_of_full t m inv full = eq_of_get_elem? t.message v inv.sized λ p lt.
      let n : ℕ = num_chunks b (length v) in
      let whole : p / b * b + p % b ≡ p = omega arith in
      let small : p % b < b = omega arith in
      let enough : length v ≤ n * b = num_chunks_end m in
      let i_in : p / b < n = grind arith in
      subst (λ k. get_elem? t.message k ≡ get_elem? v k) whole
        (inv.agrees (p / b) (p % b)
          (chunk_of_full n (p / b) t i_in (num_chunks_start (p / b) m i_in) inv full) (omega arith))

  full-all_of :
      (n m : ℕ) (is : List ℕ) (t : ChunkedMessage)
      → ((i : ℕ) → i < m → mem (i * b) t.received ≡ mem i is)
      → n ≤ m
      → ((i : ℕ) → i < n → mem (i * b) t.received ≡ true)
      → all_of n is ≡ true
  full-all_of zero m is t same le all = refl
  full-all_of (suc n) m is t same le all = ground (
    arith,
    same n (omega arith),
    all n (omega arith),
    full-all_of n m is t same (omega arith) (λ i h. all i (omega arith)),
  )

  all_of-mem : (n i : ℕ) (is : List ℕ) → all_of n is ≡ true → i < n → mem i is ≡ true
  all_of-mem zero i is h lt = absurd (omega arith)
  all_of-mem (suc n) i is h lt = elim (Bool-cases (i == n)) [
    | inl e ↦ let here : i ≡ n = ground arith in ground (arith, ap (λ k. mem k is) here)
    | inr e ↦ all_of-mem n i is (ground arith) (ground arith)
  ]

  -- What reassembly gives from a new message.
  pub record Reassembles (alloc : ℕ → Bytes) (is : List ℕ) : Type 0 where
    pub result : ChunkedMessage
    pub added : add_chunks b v is (new_chunked_message alloc (length v)) ≡ some result
    pub filled : is_fully_filled result ≡ all_of (num_chunks b (length v)) is
    pub whole : (is_fully_filled result ≡ false) ⊎ (result.message ≡ v)

  -- The chunks that `SendChunked` makes of a value, added in any order and any number of times to a new
  -- message of the value's size, whatever its memory held, are all written within its bounds. The
  -- message is then full exactly if every chunk has come, and a full message is the value. This is for
  -- a value whose number of chunks does not wrap as it is computed.
  pub add_chunks-Reassembles :
      (alloc : ℕ → Bytes) (is : List ℕ)
      → ((k : ℕ) → length (alloc k) ≡ k)
      → length v + b ≤ 2 ^ 64
      → AllBelow (num_chunks b (length v)) is
      → Reassembles alloc is
  add_chunks-Reassembles alloc is sized m all = record {
    result = t;
    added = done.added;
    filled = full_eq;
    whole = elim (Bool-cases (is_fully_filled t)) [
      | inl e ↦ inr (value_of_full t m done.holds e)
      | inr e ↦ inl e
    ];
  }
    where
      n : ℕ
      n = num_chunks b (length v)

      fresh : ChunkedMessage
      fresh = new_chunked_message alloc (length v)

      done : Assembles n is fresh
      done =
          add_chunks-Assembles n is fresh (λ i lt. num_chunks_start i m lt) all
            (new-Holds alloc sized m)

      t : ChunkedMessage
      t = done.result

      same : (i : ℕ) → i < n → mem (i * b) t.received ≡ mem i is
      same i lt = unfold new_chunked_message mem in ground (arith, done.grows i)

      full_eq : is_fully_filled t ≡ all_of n is
      full_eq = elim (Bool-cases (is_fully_filled t)) [
        | inl e ↦ ground (
          arith,
          full-all_of n n is t same (omega arith)
              (λ i lt. chunk_of_full n i t lt (num_chunks_start i m lt) done.holds e),
        )
        | inr e ↦ elim (Bool-cases (all_of n is)) [
          | inr f ↦ ground arith
          | inl f ↦ ground (
            arith,
            full_of_chunks n t done.holds
                (λ i lt. ground (arith, same i lt, all_of-mem n i is f lt)),
          )
        ]
      ]
