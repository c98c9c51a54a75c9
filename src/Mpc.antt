-- ===== src/Mpc.antt =====
-- `SSExecutor` (yacl/mpc/ss_executor.cc, ss_executor.h, types.h): two parties that compute on additive
-- shares modulo 2 ^ 64. What a party draws at random is an argument. An operation that talks to the
-- peer sends first and receives then: it is a `Round`, what it sends and what it does with what comes.
pub mod Arithmetic
pub mod Transfer
pub mod Triples
pub mod Conversion
use yacl_r.Base.{
  ℕ, zero, suc, ◌+◌, ◌-◌, ◌*◌, ◌%◌, ◌^◌, Bool, true, false, ◌&&◌, ◌||◌, List, [], ◌∷◌, Option, none,
  some, Result, ok, err, Error, enforce_not_met, io_error, fault, enforce, or_throw, ◌>>=◌, ◌>>◌,
  if◌then◌else◌, length, ◌==◌,
}

-- `uint64_t` wraps around.
unfoldable pub add_word : ℕ → ℕ → ℕ
add_word a b = (a + b) % 2 ^ 64

unfoldable pub sub_word : ℕ → ℕ → ℕ
sub_word a b = (a + (2 ^ 64 - b % 2 ^ 64)) % 2 ^ 64

unfoldable pub mul_word : ℕ → ℕ → ℕ
mul_word a b = a * b % 2 ^ 64

pub record AShare : Type 0 where
  pub v : ℕ

pub record ATriple : Type 0 where
  pub a : ℕ
  pub b : ℕ
  pub c : ℕ

pub record SsExecutor : Type 0 where
  pub rank : ℕ
  pub arith_triples : List ATriple
  pub tag_ctr : ℕ

-- The constructor; `world_size` is that of the link context.
pub new : ℕ → ℕ → Result SsExecutor
new rank world_size = do
  enforce (rank == 0 || rank == 1)
  enforce (world_size == 2)
  ok (record { rank = rank; arith_triples = []; tag_ctr = 0 })

-- The prefixes of the tags, "sha", "rva" and "mla".
pub data Prefix : Type 0 where
  sha rva mla : Prefix

unfoldable pub same_prefix : Prefix → Prefix → Bool
same_prefix sha sha = true
same_prefix rva rva = true
same_prefix mla mla = true
same_prefix p q = false

-- A message of 64-bit words under its tag.
pub record Message : Type 0 where
  pub prefix : Prefix
  pub counter : ℕ
  pub payload : List ℕ

-- What the peer has sent, by its tag; for a tag under which nothing comes, `Recv` throws in the end.
unfoldable pub find_message : List Message → Prefix → ℕ → Option (List ℕ)
find_message [] p n = none
find_message (m ∷ r) p n =
    let rest = find_message r p n in
    if same_prefix m.prefix p && m.counter == n then some m.payload else rest

-- What a party sends, and what it does when the messages of its peer are there.
pub record Round (A : Type 0) : Type 0 where
  pub sent : List Message
  pub finish : List Message → Result (A × SsExecutor)

abbrev pub sent_of : {A : Type 0} → Result (Round A) → List Message
sent_of (err e) = []
sent_of (ok r) = r.sent

abbrev pub finish_with : {A : Type 0} → Result (Round A) → List Message → Result (A × SsExecutor)
finish_with (err e) messages = err e
finish_with (ok r) messages = r.finish messages

-- Both parties, each with what the other sends.
abbrev pub together :
    {A : Type 0}
    → Result (Round A)
    → Result (Round A)
    → Result (A × SsExecutor) × Result (A × SsExecutor)
together p q = (finish_with p (sent_of q), finish_with q (sent_of p))

unfoldable pub recv_u64_vec : List Message → Prefix → ℕ → ℕ → Result (List ℕ)
unfolding find_message
recv_u64_vec messages p n count = do
  words ← or_throw (find_message messages p n) io_error
  enforce (length words == count)
  ok words

unfoldable pub recv_u64 : List Message → Prefix → ℕ → Result ℕ
unfolding recv_u64_vec
recv_u64 messages p n =
    recv_u64_vec messages p n 1 >>= λ words. elim words [ [] ↦ err fault | w ∷ r ↦ ok w ]

-- `NextTag`: the counter after it.
unfoldable pub next_tag : SsExecutor → SsExecutor
next_tag ex = record ex { tag_ctr = ex.tag_ctr + 1 }

unfoldable pub consume_a_triple : SsExecutor → Result (ATriple × SsExecutor)
consume_a_triple ex = elim ex.arith_triples [
  | [] ↦ err enforce_not_met
  | t ∷ r ↦ ok (t, record ex { arith_triples = r })
]

-- `drawn` is the random word of rank 0.
unfoldable pub share_a : SsExecutor → ℕ → ℕ → Result (Round AShare)
unfolding next_tag recv_u64
share_a ex drawn secret =
    let n = ex.tag_ctr in
    if ex.rank == 0
    then ok (record {
      sent = record { prefix = sha; counter = n; payload = drawn ∷ [] } ∷ [];
      finish = λ messages. ok (record { v = sub_word secret drawn }, next_tag ex);
    })
    else ok (record {
      sent = [];
      finish = λ messages. recv_u64 messages sha n >>= λ w. ok (record { v = w }, next_tag ex);
    })

unfoldable pub reveal_a : SsExecutor → AShare → Result (Round ℕ)
unfolding next_tag recv_u64
reveal_a ex share =
    let n = ex.tag_ctr in
    ok (record {
      sent = record { prefix = rva; counter = n; payload = share.v ∷ [] } ∷ [];
      finish =
          λ messages. recv_u64 messages rva n >>= λ peer. ok (add_word share.v peer, next_tag ex);
    })

unfoldable pub add_a : AShare → AShare → AShare
add_a x y = record { v = add_word x.v y.v }

unfoldable pub sub_a : AShare → AShare → AShare
sub_a x y = record { v = sub_word x.v y.v }

unfoldable pub neg_a : AShare → AShare
neg_a x = record { v = sub_word 0 x.v }

unfoldable pub mul_const_a : AShare → ℕ → AShare
mul_const_a x c = record { v = mul_word x.v c }

-- `z` of `MulA`, from the opened differences.
unfoldable pub product_share : ℕ → ATriple → ℕ → ℕ → ℕ
product_share rank t e f =
    let z = add_word (add_word t.c (mul_word e t.b)) (mul_word f t.a) in
    if rank == 0 then add_word z (mul_word e f) else z

unfoldable pub mul_a : SsExecutor → AShare → AShare → Result (Round AShare)
unfolding consume_a_triple next_tag recv_u64_vec product_share
mul_a ex x y = do
  (t, rest) ← consume_a_triple ex
  let e_local = sub_word x.v t.a
  let f_local = sub_word y.v t.b
  ok (record {
    sent = record { prefix = mla; counter = rest.tag_ctr; payload = e_local ∷ f_local ∷ [] } ∷ [];
    finish = λ messages. recv_u64_vec messages mla rest.tag_ctr 2 >>= λ words. elim words [
      | [] ↦ err fault
      | e_peer ∷ [] ↦ err fault
      | e_peer ∷ f_peer ∷ r ↦ ok (
        record { v = product_share ex.rank t (add_word e_local e_peer) (add_word f_local f_peer) },
        next_tag rest,
      )
    ];
  })
