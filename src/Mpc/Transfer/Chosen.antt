-- ===== src/Mpc/Transfer/Chosen.antt =====
-- `RunChosenOT` (yacl/mpc/ss_executor.cc) gives the receiver the messages of its choice.
use Prim.Native.Nat.{bit_or, bit_xor}
use yacl_r.Base.{
  ℕ, zero, suc, ◌+◌, ◌*◌, ◌/◌, ◌%◌, ◌^◌, ◌<◌, ◌≤◌, ◌≡◌, refl, sym, ap, ap₂, ◌∙◌, Bool, true, false,
  List, [], ◌∷◌, Option, none, some, ok, arith, if◌then◌else◌, length, get_elem?, get_elem?-some,
  get_elem?-set_self, get_elem?-set_ne, length-set, length-replicate, set, replicate, ltb, ◌==◌,
  Bool-cases, inl, inr,
}
use yacl_r.Base.Bits.{bit, bit-suc, bit-bit_or, bit_xor_twice}
use yacl_r.Mpc.Transfer.{
  OtMessages, flip_words, unequal, set_flips, corrections, results, receiver_flips,
  sender_corrections, receiver_results, run_chosen_ot,
}

-- The block of the receiver is the one of the sender's two that its bit chooses.
abbrev pub Correlated : List (ℕ × ℕ) → List (Bool × ℕ) → Type 0
Correlated [] [] = Unit {0}
Correlated [] (r ∷ rs) = ⊥
Correlated (s ∷ ss) [] = ⊥
Correlated ((s_0, s_1) ∷ ss) ((c, block) ∷ rs) =
    (block ≡ (if c then s_1 else s_0)) × Correlated ss rs

-- The message of each pair that the choice names.
abbrev pub chosen : List OtMessages → List Bool → List ℕ
chosen [] cs = []
chosen (m ∷ ms) [] = []
chosen (m ∷ ms) (c ∷ cs) = (if c then m.m1 else m.m0) ∷ chosen ms cs

-- The bit `k` of the words.
abbrev word_bit : Option ℕ → ℕ → ℕ
word_bit none j = 0
word_bit (some w) j = bit j w

abbrev flip_at : List ℕ → ℕ → ℕ
flip_at flips k = word_bit (get_elem? flips (k / 64)) (k % 64)

flip_at-set :
    (flips : List ℕ) (i k w : ℕ)
    → get_elem? flips (i / 64) ≡ some w
    → i / 64 < length flips
    → flip_at (set flips (i / 64) (bit_or w (2 ^ (i % 64)))) k
      ≡ (if i == k then 1 else flip_at flips k)
flip_at-set flips i k w there below =
    let new_word = bit_or w (2 ^ (i % 64)) in
    elim (Bool-cases (i / 64 == k / 64)) [
      | inl e ↦
          let same : i / 64 ≡ k / 64 = ground (arith, e) in
          let left : get_elem? (set flips (i / 64) new_word) (k / 64) ≡ some new_word =
            ap (get_elem? (set flips (i / 64) new_word)) (sym same)
            ∙ get_elem?-set_self flips (i / 64) new_word below in
          let right : get_elem? flips (k / 64) ≡ some w = ap (get_elem? flips) (sym same) ∙ there in
          let test : (i % 64 == k % 64) ≡ (i == k) = ground (arith, same) in
          ap (λ o. word_bit o (k % 64)) left
          ∙ bit-bit_or (i % 64) (k % 64) w
          ∙ ap₂ (λ (b : Bool) o. if b then 1 else word_bit o (k % 64)) test (sym right)
      | inr e ↦
          let apart : (i == k) ≡ false = ground (arith, e) in
          ap (λ o. word_bit o (k % 64))
            (get_elem?-set_ne flips (i / 64) (k / 64) new_word (ground (arith, e)))
          ∙ sym (ap (λ (b : Bool). if b then 1 else flip_at flips k) apart)
    ]

-- The words hold the flips of the choices, those from index `i` on.
abbrev Flipped : ℕ → List Bool → List (Bool × ℕ) → List ℕ → Type 0
Flipped i [] rot flips = Unit {0}
Flipped i (c ∷ cs) [] flips = Unit {0}
Flipped i (c ∷ cs) ((r, block) ∷ rot) flips =
    (flip_at flips i ≡ (if unequal r c then 1 else 0)) × Flipped (i + 1) cs rot flips

set_flips-Flipped :
    (i : ℕ) (cs : List Bool) (rot : List (Bool × ℕ)) (flips : List ℕ)
    → length cs ≤ length rot
    → i + length cs ≤ 64 * length flips
    → ((k : ℕ) → i ≤ k → flip_at flips k ≡ 0)
    → (out : List ℕ) × (set_flips i cs rot flips ≡ some out)
      × (length out ≡ length flips)
      × ((k : ℕ) → k < i → flip_at out k ≡ flip_at flips k)
      × Flipped i cs rot out
unfolding set_flips
set_flips-Flipped i [] rot flips enough fit clear = (flips, refl, refl, λ k h. refl, tt)
set_flips-Flipped i (c ∷ cs) [] flips enough fit clear = absurd (omega arith)
set_flips-Flipped i (c ∷ cs) ((r, block) ∷ rot) flips enough fit clear =
    elim (Bool-cases (unequal r c)) [
      | inl e ↦
          let below : i / 64 < length flips = omega arith in
          let (w, there) = get_elem?-some flips (i / 64) below in
          let new_word = bit_or w (2 ^ (i % 64)) in
          let flips_after = set flips (i / 64) new_word in
          let size : length flips_after ≡ length flips = length-set flips (i / 64) new_word in
          let step = λ (k : ℕ). flip_at-set flips i k w there below in
          let (out, run, same, frame, rest) =
            set_flips-Flipped (i + 1) cs rot flips_after (omega arith) (omega arith)
              (λ k h. ground (arith, step k, clear k (omega arith))) in
          (
            out,
            rw (set_flips, e, there) run,
            same ∙ size,
            λ k h. ground (arith, frame k (omega arith), step k),
            (rw e (ground (arith, frame i (omega arith), step i)), rest),
          )
      | inr e ↦
          let (out, run, same, frame, rest) =
            set_flips-Flipped (i + 1) cs rot flips (omega arith) (omega arith)
              (λ k h. clear k (omega arith)) in
          (
            out,
            rw (set_flips, e) run,
            same,
            λ k h. frame k (omega arith),
            (rw e (frame i (omega arith) ∙ clear i (omega arith)), rest),
          )
    ]

result_lem :
    (r c d : Bool) (m_0 m_1 s_0 s_1 s : ℕ)
    → d ≡ unequal r c
    → s ≡ (if r then s_1 else s_0)
    → bit_xor
        (if c then bit_xor m_1 (if d then s_0 else s_1) else bit_xor m_0 (if d then s_1 else s_0))
        s
      ≡ (if c then m_1 else m_0)
unfolding unequal
result_lem true true d m_0 m_1 s_0 s_1 s hd hs = rw (hd, hs) (bit_xor_twice m_1 s_1)
result_lem true false d m_0 m_1 s_0 s_1 s hd hs = rw (hd, hs) (bit_xor_twice m_0 s_1)
result_lem false true d m_0 m_1 s_0 s_1 s hd hs = rw (hd, hs) (bit_xor_twice m_1 s_0)
result_lem false false d m_0 m_1 s_0 s_1 s hd hs = rw (hd, hs) (bit_xor_twice m_0 s_0)

flip_test : (b : Bool) (x : ℕ) → x ≡ (if b then 1 else 0) → (x == 1) ≡ b
flip_test true x h = rw h refl
flip_test false x h = rw h refl

low_word :
    (r : Bool) (block_0 block_1 block : ℕ)
    → block ≡ (if r then block_1 else block_0)
    → block % 2 ^ 64 ≡ (if r then block_1 % 2 ^ 64 else block_0 % 2 ^ 64)
low_word true block_0 block_1 block h = ap (λ t. t % 2 ^ 64) h
low_word false block_0 block_1 block h = ap (λ t. t % 2 ^ 64) h

results-corrections :
    (i : ℕ) (cs : List Bool) (ms : List OtMessages) (sender : List (ℕ × ℕ))
    (receiver : List (Bool × ℕ)) (flips : List ℕ)
    → length ms ≡ length cs
    → length cs ≤ length receiver
    → i + length cs ≤ 64 * length flips
    → Correlated sender receiver
    → Flipped i cs receiver flips
    → (corr : List ℕ) × (corrections flips i ms sender ≡ some corr)
      × (length corr ≡ 2 * length ms)
      × (results cs receiver corr ≡ some (chosen ms cs))
unfolding corrections results
results-corrections i [] [] sender receiver flips same enough fit related flipped =
    ([], refl, refl, refl)
results-corrections i [] (m ∷ ms) sender receiver flips same enough fit related flipped =
    absurd (omega arith)
results-corrections i (c ∷ cs) [] sender receiver flips same enough fit related flipped =
    absurd (omega arith)
results-corrections i (c ∷ cs) (m ∷ ms) sender [] flips same enough fit related flipped =
    absurd (omega arith)
results-corrections i (c ∷ cs) (m ∷ ms) [] (r ∷ rs) flips same enough fit related flipped =
    absurd related
results-corrections i (c ∷ cs) (m ∷ ms) ((block_0, block_1) ∷ ss) ((r, block) ∷ rs) flips same
      enough fit (here, related) (flip, flipped) =
    let below : i / 64 < length flips = omega arith in
    let (w, there) = get_elem?-some flips (i / 64) below in
    let t = bit (i % 64) w == 1 in
    let d : t ≡ unequal r c =
      flip_test (unequal r c) (bit (i % 64) w) (sym (ap (λ o. word_bit o (i % 64)) there) ∙ flip) in
    let (corr, run, size, rest) =
      results-corrections (i + 1) cs ms ss rs flips (omega arith) (omega arith) (omega arith)
        related flipped in
    let result =
      result_lem r c t m.m0 m.m1 (block_0 % 2 ^ 64) (block_1 % 2 ^ 64) (block % 2 ^ 64) d
        (low_word r block_0 block_1 block here) in
    let e_0 = bit_xor m.m0 (if t then block_1 % 2 ^ 64 else block_0 % 2 ^ 64) in
    let e_1 = bit_xor m.m1 (if t then block_0 % 2 ^ 64 else block_1 % 2 ^ 64) in
    (
      e_0 ∷ e_1 ∷ corr,
      rw (corrections, there, run) refl,
      omega (arith, size),
      rw (results, rest, result) refl,
    )

zero_bit : (j : ℕ) → bit j 0 ≡ 0
zero_bit zero = refl
zero_bit (suc j) = bit-suc j 0 ∙ zero_bit j

get_elem?-replicate : (n k v : ℕ) → k < n → get_elem? (replicate n v) k ≡ some v
get_elem?-replicate zero k v h = elim h [ ]
get_elem?-replicate (suc n) zero v h = refl
get_elem?-replicate (suc n) (suc k) v h = get_elem?-replicate n k v (omega arith)

get_elem?-beyond : (xs : List ℕ) (k : ℕ) → length xs ≤ k → get_elem? xs k ≡ none
get_elem?-beyond [] k h = refl
get_elem?-beyond (x ∷ xs) zero h = absurd (omega arith)
get_elem?-beyond (x ∷ xs) (suc k) h = get_elem?-beyond xs k (omega arith)

clear_words : (n k : ℕ) → flip_at (replicate n 0) k ≡ 0
clear_words n k = elim (Bool-cases (ltb (k / 64) n)) [
  | inl e ↦
      let below : k / 64 < n = ground (arith, e) in
      ap (λ o. word_bit o (k % 64)) (get_elem?-replicate n (k / 64) 0 below) ∙ zero_bit (k % 64)
  | inr e ↦
      ap (λ o. word_bit o (k % 64))
        (get_elem?-beyond (replicate n 0) (k / 64)
          (ground (arith, e, length-replicate {A = ℕ} n 0)))
]

words-fit : (num_ots : ℕ) → num_ots ≤ 64 * flip_words num_ots
unfolding flip_words
words-fit num_ots = ground arith

-- `RunChosenOT` for a positive number of transfers, as many messages and choices, and at least as
-- many random transfers, in which the receiver has the sender's block that its bit names: no side
-- throws or leaves its buffers, and the receiver gets the message of each pair that its choice names.
pub run_chosen_ot_lem :
    (num_ots : ℕ) (msgs : List OtMessages) (sender : List (ℕ × ℕ)) (choices : List Bool)
    (receiver : List (Bool × ℕ))
    → 0 < num_ots
    → length msgs ≡ num_ots
    → length choices ≡ num_ots
    → num_ots ≤ length receiver
    → Correlated sender receiver
    → run_chosen_ot num_ots msgs sender choices receiver ≡ ok (chosen msgs choices)
unfolding run_chosen_ot receiver_flips sender_corrections receiver_results
run_chosen_ot_lem num_ots msgs sender choices receiver some_ots sent asked enough related =
    let words = flip_words num_ots in
    let fit : num_ots ≤ 64 * words = words-fit num_ots in
    let (flips, run, size, frame, flipped) =
      set_flips-Flipped 0 choices receiver (replicate words 0) (omega arith)
        (omega (arith, length-replicate {A = ℕ} words 0)) (λ k h. clear_words words k) in
    let (corr, answer, two_each, rest) =
      results-corrections 0 choices msgs sender receiver flips (omega arith) (omega arith)
        (omega (arith, size, length-replicate {A = ℕ} words 0)) related flipped in
    let positive : ltb 0 num_ots ≡ true = ground arith in
    let all_choices : (length choices == num_ots) ≡ true = ground arith in
    let all_messages : (length msgs == num_ots) ≡ true = ground arith in
    let all_words : (length flips == words) ≡ true =
      ground (arith, length-replicate {A = ℕ} words 0) in
    let all_corrections : (length corr == 2 * num_ots) ≡ true = ground arith in
    rw (positive, all_choices, run, all_messages, all_words, answer, all_corrections, rest) refl
