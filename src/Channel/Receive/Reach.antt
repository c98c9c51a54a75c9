-- ===== src/Channel/Receive/Reach.antt =====
-- The sets of sequence ids after any sequence of single messages from the peer (`OnMessage` of
-- link/transport/channel.cc), whatever their order and number.
use yacl_r.Base.{
  ℕ, ◌+◌, ◌^◌, ◌<◌, ◌≡◌, ap, refl, sym, subst, Bool, false, ◌||◌, List, [], ◌∷◌, arith, Bytes, ok,
  ◌==◌, same, same_refl,
}
use yacl_r.Decimal.{to_string}
use yacl_r.Segments
use yacl_r.Segments.Set
use yacl_r.Channel.Key.{
  k_ack, k_fin, build_channel_key, normal_message_key_enforce, view_to_size_t-to_string,
}
use yacl_r.Channel.State.{Channel, ack_of, send_ack}
use yacl_r.Channel.Receive.{on_message, receive_message}
use yacl_r.Channel.Receive.Deliver.{ids_after, on_message-build, on_message_ack}

-- A message that arrives: a normal one with its key and id, an ACK, or a FIN.
pub data Arrival : Type 0 where
  normal : Bytes → ℕ → Bytes → Arrival
  ack fin : ℕ → Arrival

unfoldable pub arrive : Arrival → Channel → Channel
arrive (normal k seq_id v) c = (on_message (build_channel_key k seq_id) v c).1
arrive (ack n) c = (on_message (ack_of n).msg_key (ack_of n).value c).1
arrive (fin n) c = (on_message k_fin (to_string n) c).1

unfoldable pub arrive_all : List Arrival → Channel → Channel
arrive_all [] c = c
arrive_all (a ∷ r) c = arrive_all r (arrive a c)

-- What a peer sends: normal keys, and ids below the largest `size_t`.
abbrev pub AllSendable : List Arrival → Type 0
AllSendable [] = Unit {0}
AllSendable (normal k seq_id v ∷ r) =
    (normal_message_key_enforce k ≡ ok tt) × (0 < seq_id) × (seq_id + 1 < 2 ^ 64) × AllSendable r
AllSendable (ack n ∷ r) = (n + 1 < 2 ^ 64) × AllSendable r
AllSendable (fin n ∷ r) = (n < 2 ^ 64) × AllSendable r

-- A normal message with id `x` is among them; an ACK of `x` is.
abbrev pub brings : ℕ → List Arrival → Bool
brings x [] = false
brings x (normal k seq_id v ∷ r) = x == seq_id || brings x r
brings x (ack n ∷ r) = brings x r
brings x (fin n ∷ r) = brings x r

abbrev pub acks : ℕ → List Arrival → Bool
acks x [] = false
acks x (normal k seq_id v ∷ r) = acks x r
acks x (ack n ∷ r) = x == n || acks x r
acks x (fin n ∷ r) = acks x r

abbrev pub IdsValid : Channel → Type 0
IdsValid c = Set.IsValid c.received_msg_ids × Set.IsValid c.received_ack_ids

acks_after :
    (k v : Bytes) (seq_id : ℕ) (c : Channel)
    → normal_message_key_enforce k ≡ ok tt
    → 0 < seq_id
    → seq_id + 1 < 2 ^ 64
    → (on_message (build_channel_key k seq_id) v c).1.received_ack_ids ≡ c.received_ack_ids
unfolding receive_message send_ack
acks_after k v seq_id c h pos m = rw (on_message-build k v seq_id c h (omega arith)) (ground arith)

fin_after :
    (n : ℕ) (c : Channel)
    → n < 2 ^ 64
    → ((on_message k_fin (to_string n) c).1.received_msg_ids ≡ c.received_msg_ids)
      × ((on_message k_fin (to_string n) c).1.received_ack_ids ≡ c.received_ack_ids)
unfolding on_message
fin_after n c h =
    let other : same k_fin k_ack ≡ false = unfold same in refl in
    rw (other, same_refl k_fin) (ground (arith, view_to_size_t-to_string n h))

-- The sets after the arrivals, against those before.
pub record Grows (l : List Arrival) (c d : Channel) (x : ℕ) : Type 0 where
  pub valid : IdsValid d
  pub received :
      Segments.contains x d.received_msg_ids
      ≡ (brings x l || Segments.contains x c.received_msg_ids)
  pub acknowledged :
      Segments.contains x d.received_ack_ids ≡ (acks x l || Segments.contains x c.received_ack_ids)

arrive-Grows :
    (a : Arrival) (c : Channel) (x : ℕ)
    → AllSendable (a ∷ [])
    → IdsValid c
    → Grows (a ∷ []) c (arrive a c) x
unfolding arrive
arrive-Grows (normal k seq_id v) c x h valid =
    let ids = ids_after k v seq_id c h.0 h.1 h.2 valid.0 in
    let same_acks = acks_after k v seq_id c h.0 h.1 h.2 in
    record {
      valid = (
        subst Set.IsValid (sym ids) (Set.insert-IsValid seq_id c.received_msg_ids h.2 valid.0),
        subst Set.IsValid (sym same_acks) valid.1,
      );
      received =
          rw ids (ground (arith, Set.contains-insert seq_id x c.received_msg_ids h.2 valid.0));
      acknowledged = rw same_acks refl;
    }
arrive-Grows (ack n) c x h valid =
    let e = on_message_ack n c (omega arith) in
    let same_ids = ap (λ r. r.1.received_msg_ids) e in
    let more_acks = ap (λ r. r.1.received_ack_ids) e in
    record {
      valid = (
        subst Set.IsValid (sym same_ids) valid.0,
        subst Set.IsValid (sym more_acks) (Set.insert-IsValid n c.received_ack_ids h.0 valid.1),
      );
      received = rw same_ids refl;
      acknowledged =
          rw more_acks (ground (arith, Set.contains-insert n x c.received_ack_ids h.0 valid.1));
    }
arrive-Grows (fin n) c x h valid =
    let same_ids = fin_after n c h.0 in
    record {
      valid =
          (subst Set.IsValid (sym same_ids.0) valid.0, subst Set.IsValid (sym same_ids.1) valid.1);
      received = rw same_ids.0 refl;
      acknowledged = rw same_ids.1 refl;
    }

Grows-cons :
    (a : Arrival) (l : List Arrival) (c : Channel) (x : ℕ)
    → Grows (a ∷ []) c (arrive a c) x
    → Grows l (arrive a c) (arrive_all l (arrive a c)) x
    → Grows (a ∷ l) c (arrive_all l (arrive a c)) x
Grows-cons (normal k n v) l c x one more = record {
  valid = more.valid;
  received = ground (arith, one.received, more.received);
  acknowledged = ground (arith, one.acknowledged, more.acknowledged);
}
Grows-cons (ack n) l c x one more = record {
  valid = more.valid;
  received = ground (arith, one.received, more.received);
  acknowledged = ground (arith, one.acknowledged, more.acknowledged);
}
Grows-cons (fin n) l c x one more = record {
  valid = more.valid;
  received = ground (arith, one.received, more.received);
  acknowledged = ground (arith, one.acknowledged, more.acknowledged);
}

first_of : (a : Arrival) (l : List Arrival) → AllSendable (a ∷ l) → AllSendable (a ∷ [])
first_of (normal k n v) l h = (h.0, h.1, h.2, tt)
first_of (ack n) l h = (h.0, tt)
first_of (fin n) l h = (h.0, tt)

rest_of : (a : Arrival) (l : List Arrival) → AllSendable (a ∷ l) → AllSendable l
rest_of (normal k n v) l h = h.3
rest_of (ack n) l h = h.1
rest_of (fin n) l h = h.1

-- From a channel whose sets of ids are valid, messages with normal keys and ids between 1 and
-- 2 ^ 64 - 2, ACKs of ids up to that, and FINs, in any order and any number of times, leave the sets
-- valid, and what they hold is what they held with exactly the ids that came: those of
-- the normal messages, and those of the ACKs. No arrival is lost or undone, also where a handler threw.
pub arrive_all-Grows :
    (l : List Arrival) (c : Channel) (x : ℕ)
    → AllSendable l
    → IdsValid c
    → Grows l c (arrive_all l c) x
unfolding arrive_all
arrive_all-Grows [] c x h valid = record { valid = valid; received = refl; acknowledged = refl }
arrive_all-Grows (a ∷ l) c x h valid =
    let one = arrive-Grows a c x (first_of a l h) valid in
    Grows-cons a l c x one (arrive_all-Grows l (arrive a c) x (rest_of a l h) one.valid)
