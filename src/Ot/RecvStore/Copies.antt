-- ===== src/Ot/RecvStore/Copies.antt =====
-- The copies that a receiver's store makes of its part of the buffers (yacl/ot/ot_store.cc).
use mathlib.Core.Option
use Prim.Native.Nat.{bit_and}
use yacl_r.Base.{
  ℕ, zero, suc, ◌+◌, ◌%◌, ◌^◌, ◌≤◌, ◌<◌, ◌≡◌, ◌⊎◌, ◌∙◌, sym, subst, refl, Bool, true, false, List,
  [], ◌∷◌, ◌++◌, some, arith, ok, err, enforce_not_met, ltb, ◌==◌, if◌then◌else◌, length, get_elem?,
  get_elem?-some, take, drop, replicate, inl, inr, length-drop, length-take, length-append,
  length-replicate, Bool-cases,
}
use yacl_r.Base.Index.{get_elem?-take, get_elem?-drop, get_elem?-append_left}
use yacl_r.Ot.Slice.{OtStoreType, normal, compact, get_buf_idx, read}
use yacl_r.Ot.RecvStore.{
  Buffers, OtRecvStore, get_block, get_choice, copy_blk_buf, copy_bit_buf, low_bits,
}
use yacl_r.Ot.RecvStore.Slices.{IsValid, get_block_lem}

-- `CopyBlkBuf` of a valid store has the blocks that `GetBlock` reads, and no others.
pub copy_blk_buf-get_block :
    (m : Buffers) (s : OtRecvStore) (i : ℕ)
    → IsValid m s
    → (length (copy_blk_buf m s) ≡ s.slice.use_size)
      × (get_block m s i
          ≡ (if ltb i s.slice.use_size then read (copy_blk_buf m s) i else err enforce_not_met))
unfolding copy_blk_buf
copy_blk_buf-get_block m s i v =
    let c = s.slice.use_ctr in
    let n = s.slice.use_size in
    (
      omega (arith, length-take n (drop c m.blk), length-drop c m.blk, v.use_in, v.buf_in),
      get_block_lem m s i v ∙ elim (Bool-cases (ltb i n)) [
        | inl e ↦
            rw
              (
                e,
                get_elem?-take n (drop c m.blk) i (ground arith),
                get_elem?-drop c m.blk i (c + i) refl,
              )
              refl
        | inr e ↦ rw e refl
      ],
    )

type_cases : (t : OtStoreType) → (t ≡ normal) ⊎ (t ≡ compact)
type_cases normal = inl refl
type_cases compact = inr refl

record Lowest (m : Buffers) (s : OtRecvStore) (n i : ℕ) : Type 0 where
  bits : List Bool
  made : low_bits m s n i ≡ ok bits
  sized : length bits ≡ n
  each :
      (j : ℕ)
      → j < n
      → get_elem? bits j
        ≡ Option.map (λ b. bit_and b 1 == 1) (get_elem? m.blk (s.slice.use_ctr + (i + j)))

low_bits-Lowest :
    (m : Buffers) (s : OtRecvStore) (n i : ℕ)
    → IsValid m s
    → i + n ≤ s.slice.use_size
    → Lowest m s n i
unfolding low_bits
low_bits-Lowest m s zero i v h = record {
  bits = [];
  made = refl;
  sized = refl;
  each = λ j lt. absurd (omega arith);
}
low_bits-Lowest m s (suc n) i v h =
    let c = s.slice.use_ctr in
    let (b, there) = get_elem?-some m.blk (c + i) (omega (arith, v.use_in, v.buf_in)) in
    let inside : ltb i s.slice.use_size ≡ true = ground arith in
    let got : get_block m s i ≡ ok b = get_block_lem m s i v ∙ rw (inside, there) refl in
    let rest : Lowest m s n (i + 1) = low_bits-Lowest m s n (i + 1) v (omega arith) in
    record {
      bits = (bit_and b 1 == 1) ∷ rest.bits;
      made = rw (got, rest.made) refl;
      sized = omega (arith, rest.sized);
      each = λ j lt. nth b there rest j lt;
    }
  where
    nth :
        (b : ℕ)
        → get_elem? m.blk (s.slice.use_ctr + i) ≡ some b
        → (rest : Lowest m s n (i + 1)) → (j : ℕ) → j < suc n
        → get_elem? ((bit_and b 1 == 1) ∷ rest.bits) j
          ≡ Option.map (λ x. bit_and x 1 == 1) (get_elem? m.blk (s.slice.use_ctr + (i + j)))
    nth b there rest zero lt =
        let here : s.slice.use_ctr + (i + 0) ≡ s.slice.use_ctr + i = omega arith in
        rw (here, there) refl
    nth b there rest (suc j) lt =
        let here : s.slice.use_ctr + (i + suc j) ≡ s.slice.use_ctr + (i + 1 + j) = omega arith in
        rw here (rest.each j (omega arith))

-- What `CopyBitBuf` gives for index `i`.
abbrev pub Copied : Buffers → OtRecvStore → ℕ → Type 0
Copied m s i =
    (l : List Bool) × (copy_bit_buf m s ≡ ok l)
    × (length l ≡ s.slice.use_size)
    × (get_choice m s i ≡ read l i)

get_choice_compact :
    (m : Buffers) (s : OtRecvStore) (i b : ℕ)
    → s.type ≡ compact
    → IsValid m s
    → i < s.slice.use_size
    → get_elem? m.blk (s.slice.use_ctr + i) ≡ some b
    → get_choice m s i ≡ ok (bit_and b 1 == 1)
unfolding get_choice get_buf_idx
get_choice_compact m s i b t v h there =
    let c = s.slice.use_ctr in
    let inside : ltb i s.slice.use_size ≡ true = ground arith in
    let w : (c + i) % 2 ^ 64 ≡ c + i = omega (arith, v.use_in, v.buf_in, v.addressable) in
    rw (t, inside, w, there) refl

copy_when_compact :
    (m : Buffers) (s : OtRecvStore) (i : ℕ)
    → s.type ≡ compact
    → IsValid m s
    → i < s.slice.use_size
    → Copied m s i
unfolding copy_bit_buf
copy_when_compact m s i t v h =
    let low = low_bits-Lowest m s s.slice.use_size 0 v (omega arith) in
    let c = s.slice.use_ctr in
    let n = s.slice.use_size in
    let (b, there) = get_elem?-some m.blk (c + i) (omega (arith, v.use_in, v.buf_in)) in
    (
      low.bits,
      subst
          (λ k.
            elim k [
              | compact ↦ low_bits m s n 0
              | normal ↦ ok (take n (drop c m.bit ++ replicate n false))
            ]
            ≡ ok low.bits)
          (sym t) low.made,
      low.sized,
      get_choice_compact m s i b t v h there ∙ bit_at low i h b there,
    )
  where
    bit_at :
        (low : Lowest m s s.slice.use_size 0) (j : ℕ)
        → j < s.slice.use_size
        → (b : ℕ) → get_elem? m.blk (s.slice.use_ctr + j) ≡ some b
        → ok (bit_and b 1 == 1) ≡ read low.bits j
    bit_at low j lt b there =
        let here : 0 + j ≡ j = omega arith in rw (low.each j lt, here, there) refl

copy_when_normal :
    (m : Buffers) (s : OtRecvStore) (i : ℕ)
    → s.type ≡ normal
    → length m.bit ≡ length m.blk
    → IsValid m s
    → i < s.slice.use_size
    → Copied m s i
unfolding copy_bit_buf get_choice get_buf_idx
copy_when_normal m s i t e v h =
    let c = s.slice.use_ctr in
    let n = s.slice.use_size in
    let shifted = drop c m.bit in
    let len = length-drop c m.bit in
    let inside : ltb i n ≡ true = ground arith in
    let w : (c + i) % 2 ^ 64 ≡ c + i = omega (arith, v.use_in, v.buf_in, v.addressable) in
    let at : get_elem? (take n (shifted ++ replicate n false)) i ≡ get_elem? m.bit (c + i) =
      get_elem?-take n (shifted ++ replicate n false) i h
      ∙ get_elem?-append_left shifted (replicate n false) i (omega (arith, v.use_in, v.buf_in, len))
      ∙ get_elem?-drop c m.bit i (c + i) refl in
    (
      take n (shifted ++ replicate n false),
      rw t refl,
      omega (
        arith,
        length-take n (shifted ++ replicate n false),
        length-append shifted (replicate n false),
        length-replicate n false,
      ),
      rw (t, inside, w, at) refl,
    )

-- `CopyBitBuf` of a valid store succeeds in both modes, and has the choices that `GetChoice` reads.
pub copy_bit_buf-get_choice :
    (m : Buffers) (s : OtRecvStore) (i : ℕ)
    → IsValid m s
    → i < s.slice.use_size
    → (l : List Bool) × (copy_bit_buf m s ≡ ok l)
      × (length l ≡ s.slice.use_size)
      × (get_choice m s i ≡ read l i)
copy_bit_buf-get_choice m s i v h = elim (type_cases s.type) [
  | inr t ↦ copy_when_compact m s i t v h
  | inl t ↦ elim v.bits [
    | inr e ↦ copy_when_normal m s i t e v h
    | inl t' ↦ copy_when_compact m s i t' v h
  ]
]
