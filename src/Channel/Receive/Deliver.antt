-- ===== src/Channel/Receive/Deliver.antt =====
-- From `OnMessage` to `Recv` and back by the ACK (link/transport/channel.cc).

use yacl_r.Base.{
  ℕ, ◌+◌, ◌^◌, ◌<◌, ◌≡◌, sym, subst, ◌∙◌, true, false, ◌||◌, List, [], ◌∷◌, ◌++◌, none, some, arith,
  Bytes, ok, ◌==◌, if◌then◌else◌, same, same_refl,
}
use yacl_r.Base.Dict.{lookup, insert, erase, lookup-insert, lookup-erase}
use yacl_r.Segments
use yacl_r.Segments.Set
use yacl_r.Channel.Key.{
  k_ack, build_channel_key, normal_message_key_enforce, split_channel_key-build_channel_key,
  normal-ne-control, lacks_of_enforce, view_to_size_t-to_string,
}
use yacl_r.Channel.State.{Channel, Wake, wait_for, send_ack, ack_of}
use yacl_r.Channel.Receive.{on_message, receive_message, recv}

-- The handlers, on a key that was built from a normal one.
pub on_message-build :
    (k v : Bytes) (seq_id : ℕ) (c : Channel)
    → normal_message_key_enforce k ≡ ok tt
    → seq_id < 2 ^ 64
    → on_message (build_channel_key k seq_id) v c ≡ receive_message k seq_id v c
unfolding on_message
on_message-build k v seq_id c h m =
    let ne = normal-ne-control k seq_id h in
    rw (ne.0, ne.1, split_channel_key-build_channel_key k seq_id (lacks_of_enforce k h) m)

-- A new message is stored with its sequence id.
pub on_message_new :
    (k v : Bytes) (seq_id : ℕ) (c : Channel)
    → normal_message_key_enforce k ≡ ok tt
    → 0 < seq_id
    → seq_id + 1 < 2 ^ 64
    → Set.IsValid c.received_msg_ids
    → Segments.contains seq_id c.received_msg_ids ≡ false
    → c.waiting_finish ≡ false
    → lookup k c.recv_msgs ≡ none
    → on_message (build_channel_key k seq_id) v c ≡ (
      ok tt,
      record c {
        recv_msgs = insert k (v, seq_id) c.recv_msgs;
        received_msg_ids = (Segments.insert seq_id c.received_msg_ids).0;
      },
    )
unfolding receive_message
on_message_new k v seq_id c h pos m valid new running free =
    on_message-build k v seq_id c h (omega arith)
    ∙ ground (arith, Set.insert_fresh seq_id c.received_msg_ids m valid)

-- A message with a known sequence id changes nothing, whatever it holds.
pub on_message_known :
    (k v : Bytes) (seq_id : ℕ) (c : Channel)
    → normal_message_key_enforce k ≡ ok tt
    → 0 < seq_id
    → seq_id + 1 < 2 ^ 64
    → Set.IsValid c.received_msg_ids
    → Segments.contains seq_id c.received_msg_ids ≡ true
    → on_message (build_channel_key k seq_id) v c ≡ (ok tt, c)
unfolding receive_message
on_message_known k v seq_id c h pos m valid known =
    on_message-build k v seq_id c h (omega arith)
    ∙ ground (arith, Set.insert_fresh seq_id c.received_msg_ids m valid)

-- The set of received ids after any delivery of a message with id `seq_id`, also one that throws.
pub ids_after :
    (k v : Bytes) (seq_id : ℕ) (c : Channel)
    → normal_message_key_enforce k ≡ ok tt
    → 0 < seq_id
    → seq_id + 1 < 2 ^ 64
    → Set.IsValid c.received_msg_ids
    → (on_message (build_channel_key k seq_id) v c).1.received_msg_ids
      ≡ (Segments.insert seq_id c.received_msg_ids).0
unfolding receive_message send_ack
ids_after k v seq_id c h pos m valid = rw (on_message-build k v seq_id c h (omega arith)) (
    ground (
      arith,
      Set.insert_fresh seq_id c.received_msg_ids m valid,
      Set.insert_known seq_id c.received_msg_ids m valid,
    ))

-- Delivery is at most once: with a valid set of received ids and normal keys, after the first delivery
-- of a sequence id between 1 and 2 ^ 64 - 2, even one that threw or was only acknowledged, a message with
-- that id changes nothing and throws nothing.
pub on_message_twice :
    (k v j w : Bytes) (seq_id : ℕ) (c : Channel)
    → normal_message_key_enforce k ≡ ok tt
    → normal_message_key_enforce j ≡ ok tt
    → 0 < seq_id
    → seq_id + 1 < 2 ^ 64
    → Set.IsValid c.received_msg_ids
    → let d = (on_message (build_channel_key k seq_id) v c).1 in
      on_message (build_channel_key j seq_id) w d ≡ (ok tt, d)
on_message_twice k v j w seq_id c hk hj pos m valid =
    let d = (on_message (build_channel_key k seq_id) v c).1 in
    let ids = ids_after k v seq_id c hk pos m valid in
    on_message_known j w seq_id d hj pos m
      (subst Set.IsValid (sym ids) (Set.insert-IsValid seq_id c.received_msg_ids m valid))
      (rw ids (ground (arith, Set.contains-insert seq_id seq_id c.received_msg_ids m valid)))

-- Once the channel is closing, a new message is acknowledged and not stored.
pub on_message_closing :
    (k v : Bytes) (seq_id : ℕ) (c : Channel)
    → normal_message_key_enforce k ≡ ok tt
    → 0 < seq_id
    → seq_id + 1 < 2 ^ 64
    → Set.IsValid c.received_msg_ids
    → Segments.contains seq_id c.received_msg_ids ≡ false
    → c.waiting_finish ≡ true
    → on_message (build_channel_key k seq_id) v c ≡ (
      ok tt,
      send_ack seq_id
          (record c { received_msg_ids = (Segments.insert seq_id c.received_msg_ids).0 }),
    )
unfolding receive_message
on_message_closing k v seq_id c h pos m valid new closing =
    on_message-build k v seq_id c h (omega arith)
    ∙ ground (arith, Set.insert_fresh seq_id c.received_msg_ids m valid)

-- `Recv` of a stored key returns its value at once, takes it out and acknowledges it.
pub recv_stored :
    (k v : Bytes) (seq_id : ℕ) (ws : List Wake) (c : Channel)
    → normal_message_key_enforce k ≡ ok tt
    → c.aborting ≡ false
    → lookup k c.recv_msgs ≡ some (v, seq_id)
    → recv k ws c ≡ some (ok v, send_ack seq_id (record c { recv_msgs = erase k c.recv_msgs }))
unfolding recv wait_for
recv_stored k v seq_id [] c h a stored = ground arith
recv_stored k v seq_id (w ∷ ws) c h a stored = ground arith

-- The ACK of a sequence id, at the sender.
pub on_message_ack :
    (seq_id : ℕ) (c : Channel)
    → seq_id < 2 ^ 64
    → on_message (ack_of seq_id).msg_key (ack_of seq_id).value c
      ≡ (ok tt, record c { received_ack_ids = (Segments.insert seq_id c.received_ack_ids).0 })
unfolding on_message ack_of
on_message_ack seq_id c m = rw (same_refl k_ack, view_to_size_t-to_string seq_id m)

-- The message `v` under `k` and `seq_id`, delivered to `c`: the next `Recv` of `k` returns `v`, submits
-- its ACK and takes out the entry of `k` alone, and the ACK marks that id at `sender` alone.
abbrev pub Delivers : Bytes → Bytes → ℕ → List Wake → Channel → Channel → Type 0
Delivers k v seq_id ws c sender =
    let d = (on_message (build_channel_key k seq_id) v c).1 in
    (e : Channel) × (recv k ws d ≡ some (ok v, e))
    × (e.tasks ≡ c.tasks ++ ack_of seq_id ∷ [])
    × ((j : Bytes) → lookup j e.recv_msgs ≡ (if same k j then none else lookup j c.recv_msgs))
    × ((x : ℕ)
        → Segments.contains x
            (on_message (ack_of seq_id).msg_key (ack_of seq_id).value sender).1.received_ack_ids
          ≡ (x == seq_id || Segments.contains x sender.received_ack_ids))

-- A message with a normal key that no stored message has, and with a new sequence id between 1 and
-- 2 ^ 64 - 2, reaches a receiver that is neither closing nor aborting; the receiver's set of ids and the
-- sender's set of acknowledged ids are valid. Then the message is what `Recv` of that key returns next,
-- and its ACK, when it reaches the sender, marks exactly that id as acknowledged.
pub deliver_recv_ack :
    (k v : Bytes) (seq_id : ℕ) (ws : List Wake) (c sender : Channel)
    → normal_message_key_enforce k ≡ ok tt
    → 0 < seq_id
    → seq_id + 1 < 2 ^ 64
    → Set.IsValid c.received_msg_ids
    → Segments.contains seq_id c.received_msg_ids ≡ false
    → c.waiting_finish ≡ false
    → c.aborting ≡ false
    → lookup k c.recv_msgs ≡ none
    → Set.IsValid sender.received_ack_ids
    → Delivers k v seq_id ws c sender
unfolding send_ack
deliver_recv_ack k v seq_id ws c sender h pos m valid new running live free s_valid =
    rw (on_message_new k v seq_id c h pos m valid new running free) (
      send_ack seq_id (record stored { recv_msgs = erase k stored.recv_msgs }),
      recv_stored k v seq_id ws stored h live
          (ground (arith, lookup-insert k k (v, seq_id) c.recv_msgs free, same_refl k)),
      ground arith,
      λ j. ground (
        arith,
        lookup-erase k j stored.recv_msgs,
        lookup-insert k j (v, seq_id) c.recv_msgs free,
      ),
      λ x.
          rw (on_message_ack seq_id sender (omega arith))
            (Set.contains-insert seq_id x sender.received_ack_ids m s_valid),
    )
  where
    stored : Channel
    stored = record c {
      recv_msgs = insert k (v, seq_id) c.recv_msgs;
      received_msg_ids = (Segments.insert seq_id c.received_msg_ids).0;
    }
