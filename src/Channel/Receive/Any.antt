-- ===== src/Channel/Receive/Any.antt =====
-- The sets of sequence ids after any messages from the peer (`OnMessage` of link/transport/channel.cc),
-- also those that no channel sends: keys without an id, numbers that cannot be read, test messages.
use yacl_r.Base.{
  ℕ, ◌+◌, ◌^◌, ◌<◌, ◌≡◌, ◌⊎◌, inl, inr, refl, sym, subst, Bool, true, false, ◌&&◌, ◌||◌, List, [],
  ◌∷◌, arith, Bytes, Result, ok, err, Error, fault, ◌==◌, ltb, same, Bool-cases, if◌then◌else◌,
}
use yacl_r.Segments
use yacl_r.Segments.Set
use yacl_r.Channel.Key.{k_ack, k_fin, view_to_size_t, split_channel_key}
use yacl_r.Channel.State.{Channel, send_ack}
use yacl_r.Channel.Receive.{on_message, receive_message}
use yacl_r.Channel.Receive.Reach.{IdsValid}

-- The id that a message has on the wire; 0 for a control message and for what cannot be read.
abbrev pub id_of : Bytes → ℕ
id_of key =
    if same key k_ack || same key k_fin
    then 0
    else elim (split_channel_key key) [ ok p ↦ p.1 | err e ↦ 0 ]

-- The id that an ACK has; an error for another message and for what cannot be read.
abbrev pub ack_id_of : Bytes → Bytes → Result ℕ
ack_id_of key value = if same key k_ack then view_to_size_t value else err fault

-- No id and no ACK is the largest `size_t`.
abbrev pub BelowLargest : List (Bytes × Bytes) → Type 0
BelowLargest [] = Unit {0}
BelowLargest ((key, value) ∷ r) =
    (id_of key + 1 < 2 ^ 64)
    × ((n : ℕ) → ack_id_of key value ≡ ok n → n + 1 < 2 ^ 64)
    × BelowLargest r

abbrev pub message_with : ℕ → List (Bytes × Bytes) → Bool
message_with x [] = false
message_with x ((key, value) ∷ r) = (ltb 0 x && x == id_of key) || message_with x r

abbrev pub ack_with : ℕ → List (Bytes × Bytes) → Bool
ack_with x [] = false
ack_with x ((key, value) ∷ r) =
    elim (ack_id_of key value) [ ok n ↦ x == n | err e ↦ false ] || ack_with x r

unfoldable pub on_messages : List (Bytes × Bytes) → Channel → Channel
on_messages [] c = c
on_messages ((key, value) ∷ r) c = on_messages r (on_message key value c).1

-- The sets after the messages, against those before.
pub record Collects (l : List (Bytes × Bytes)) (c d : Channel) : Type 0 where
  pub valid : IdsValid d
  pub received :
      (x : ℕ)
      → Segments.contains x d.received_msg_ids
        ≡ (message_with x l || Segments.contains x c.received_msg_ids)
  pub acknowledged :
      (x : ℕ)
      → Segments.contains x d.received_ack_ids
        ≡ (ack_with x l || Segments.contains x c.received_ack_ids)

receive_message-sets :
    (k v : Bytes) (n : ℕ) (c : Channel)
    → n + 1 < 2 ^ 64
    → IdsValid c
    → ((receive_message k n v c).1.received_msg_ids
        ≡ (if n == 0 then c.received_msg_ids else (Segments.insert n c.received_msg_ids).0))
      × ((receive_message k n v c).1.received_ack_ids ≡ c.received_ack_ids)
unfolding receive_message send_ack
receive_message-sets k v n c m valid = (
  ground (
    arith,
    Set.insert_fresh n c.received_msg_ids m valid.0,
    Set.insert_known n c.received_msg_ids m valid.0,
  ),
  ground arith,
)

Result-cases : {A : Type 0} (r : Result A) → ((a : A) × (r ≡ ok a)) ⊎ ((e : Error) × (r ≡ err e))
Result-cases (ok a) = inl (a, refl)
Result-cases (err e) = inr (e, refl)

-- A message that leaves both sets alone and has no id.
unchanged :
    (key value : Bytes) (c d : Channel)
    → IdsValid c
    → d.received_msg_ids ≡ c.received_msg_ids
    → d.received_ack_ids ≡ c.received_ack_ids
    → id_of key ≡ 0
    → ((n : ℕ) → ack_id_of key value ≡ ok n → ⊥)
    → Collects ((key, value) ∷ []) c d
unchanged key value c d valid ids acks no_id no_ack = record {
  valid = (subst Set.IsValid (sym ids) valid.0, subst Set.IsValid (sym acks) valid.1);
  received = λ x. rw (ids, no_id) (ground arith);
  acknowledged = λ x. elim (Result-cases (ack_id_of key value)) [
    | inl (n, e) ↦ absurd (no_ack n e)
    | inr (e, h) ↦ rw (acks, h) refl
  ];
}

on_message-ack :
    (key value : Bytes) (c : Channel)
    → same key k_ack ≡ true
    → BelowLargest ((key, value) ∷ [])
    → IdsValid c
    → Collects ((key, value) ∷ []) c (on_message key value c).1
unfolding on_message
on_message-ack key value c is_ack small valid = elim (Result-cases (view_to_size_t value)) [
  | inl (n, e) ↦
      let below : n + 1 < 2 ^ 64 = small.1 n (rw is_ack e) in
      record {
        valid = rw (is_ack, e) (valid.0, Set.insert-IsValid n c.received_ack_ids below valid.1);
        received = λ x. rw (is_ack, e) (ground arith);
        acknowledged = λ x.
            rw (is_ack, e)
              (ground (arith, Set.contains-insert n x c.received_ack_ids below valid.1));
      }
  | inr (e, h) ↦
      unchanged key value c (on_message key value c).1 valid (rw (is_ack, h) refl)
        (rw (is_ack, h) refl) (rw is_ack refl) (λ n at. ground (arith, at, is_ack, h))
]

on_message-fin :
    (key value : Bytes) (c : Channel)
    → same key k_ack ≡ false
    → same key k_fin ≡ true
    → IdsValid c
    → Collects ((key, value) ∷ []) c (on_message key value c).1
unfolding on_message
on_message-fin key value c not_ack is_fin valid =
    unchanged key value c (on_message key value c).1 valid
      (rw (not_ack, is_fin)
        (elim (Result-cases (view_to_size_t value)) [
          | inl (n, e) ↦ rw e (ground arith)
          | inr (e, h) ↦ rw h (ground arith)
        ]))
      (rw (not_ack, is_fin)
        (elim (Result-cases (view_to_size_t value)) [
          | inl (n, e) ↦ rw e (ground arith)
          | inr (e, h) ↦ rw h (ground arith)
        ]))
      (rw (not_ack, is_fin) refl) (λ n at. ground (arith, at, not_ack))

either-IsValid :
    (n : ℕ) (c : Channel)
    → n + 1 < 2 ^ 64
    → Set.IsValid c.received_msg_ids
    → Set.IsValid (if n == 0 then c.received_msg_ids else (Segments.insert n c.received_msg_ids).0)
either-IsValid n c below valid = elim (Bool-cases (n == 0)) [
  | inl e ↦ rw e valid
  | inr e ↦ rw e (Set.insert-IsValid n c.received_msg_ids below valid)
]

on_message-normal :
    (key value : Bytes) (c : Channel)
    → same key k_ack ≡ false
    → same key k_fin ≡ false
    → BelowLargest ((key, value) ∷ [])
    → IdsValid c
    → Collects ((key, value) ∷ []) c (on_message key value c).1
unfolding on_message
on_message-normal key value c not_ack not_fin small valid =
    elim (Result-cases (split_channel_key key)) [
      | inl ((k, n), e) ↦
          let below : n + 1 < 2 ^ 64 = rw (not_ack, not_fin, e) at small.0 in
          let (ids, acks) = receive_message-sets k value n c below valid in
          record {
            valid = rw (not_ack, not_fin, e, ids, acks) (either-IsValid n c below valid.0, valid.1);
            received = λ x.
                rw (not_ack, not_fin, e, ids)
                  (ground (arith, Set.contains-insert n x c.received_msg_ids below valid.0));
            acknowledged = λ x. rw (not_ack, not_fin, e, acks) refl;
          }
      | inr (e, h) ↦
          unchanged key value c (on_message key value c).1 valid (rw (not_ack, not_fin, h) refl)
            (rw (not_ack, not_fin, h) refl) (rw (not_ack, not_fin, h) refl)
            (λ n at. ground (arith, at, not_ack))
    ]

on_message-Collects :
    (key value : Bytes) (c : Channel)
    → BelowLargest ((key, value) ∷ [])
    → IdsValid c
    → Collects ((key, value) ∷ []) c (on_message key value c).1
on_message-Collects key value c small valid = elim (Bool-cases (same key k_ack)) [
  | inl is_ack ↦ on_message-ack key value c is_ack small valid
  | inr not_ack ↦ elim (Bool-cases (same key k_fin)) [
    | inl is_fin ↦ on_message-fin key value c not_ack is_fin valid
    | inr not_fin ↦ on_message-normal key value c not_ack not_fin small valid
  ]
]

-- From a channel whose sets of ids are valid, any messages, among which no id and no ACK is the
-- largest `size_t`, in any order and number, leave the sets valid. The set of received ids holds what
-- it held and exactly the ids of the messages that have one, and the set of acknowledged ids what it
-- held and exactly the ids of the ACKs that can be read, also where a handler threw.
pub on_messages-Collects :
    (l : List (Bytes × Bytes)) (c : Channel)
    → BelowLargest l
    → IdsValid c
    → Collects l c (on_messages l c)
unfolding on_messages
on_messages-Collects [] c small valid = record {
  valid = valid;
  received = λ x. refl;
  acknowledged = λ x. refl;
}
on_messages-Collects ((key, value) ∷ l) c small valid =
    let one = on_message-Collects key value c (small.0, small.1, tt) valid in
    let more = on_messages-Collects l (on_message key value c).1 small.2 one.valid in
    record {
      valid = more.valid;
      received = λ x. ground (arith, one.received x, more.received x);
      acknowledged = λ x. ground (arith, one.acknowledged x, more.acknowledged x);
    }
