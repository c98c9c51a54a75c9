-- ===== src/Channel/Send/Order.antt =====
-- `SendAsync` of several values one after the other, and the send thread of link/transport/channel.cc.
use yacl_r.Base.{
  ℕ, suc, ◌+◌, ◌%◌, ◌^◌, ◌<◌, ◌≡◌, refl, ap, ap₂, ◌∙◌, false, List, [], ◌∷◌, ◌++◌, append-nil,
  append_assoc, arith, Bytes, Result, ok, err, length, length-append,
}
use yacl_r.Channel.Key.{
  build_channel_key, split_channel_key, normal_message_key_enforce,
  split_channel_key-build_channel_key, lacks_of_enforce,
}
use yacl_r.Channel.State.{Channel, Message, M, ◌>>◌, gets}
use yacl_r.Channel.Send.{send_async, drain}
use yacl_r.Channel.Send.Queue.{send_async_open, drain_lem}

-- The calls of a user, each under its key; the first that throws ends them.
unfoldable pub send_async_all : List (Bytes × Bytes) → M (Unit {0})
send_async_all [] = gets (λ c. tt)
send_async_all ((k, v) ∷ r) = do send_async k v; send_async_all r

abbrev pub AllNormal : List (Bytes × Bytes) → Type 0
AllNormal [] = Unit {0}
AllNormal ((k, v) ∷ r) = (normal_message_key_enforce k ≡ ok tt) × AllNormal r

-- One message for each key and value, in order, with the sequence ids after `n`: the receiver splits
-- the caller's key and the id off its key.
abbrev pub Numbered : List (Bytes × Bytes) → ℕ → List Message → Type 0
Numbered [] n [] = Unit {0}
Numbered [] n (m ∷ ms) = ⊥
Numbered ((k, v) ∷ r) n [] = ⊥
Numbered ((k, v) ∷ r) n (m ∷ ms) =
    (m.seq_id ≡ n + 1)
    × (split_channel_key m.msg_key ≡ ok (k, n + 1))
    × (m.value ≡ v)
    × Numbered r (n + 1) ms

messages : List (Bytes × Bytes) → ℕ → List Message
messages [] n = []
messages ((k, v) ∷ r) n =
    record { seq_id = n + 1; msg_key = build_channel_key k (n + 1); value = v } ∷ messages r (n + 1)

messages-Numbered :
    (l : List (Bytes × Bytes)) (n : ℕ)
    → AllNormal l
    → n + length l < 2 ^ 64
    → Numbered l n (messages l n)
unfolding messages
messages-Numbered [] n normal m = tt
messages-Numbered ((k, v) ∷ r) n normal m = (
  refl,
  split_channel_key-build_channel_key k (n + 1) (lacks_of_enforce k normal.0) (omega arith),
  refl,
  messages-Numbered r (n + 1) normal.1 (omega arith),
)

length-messages : (l : List (Bytes × Bytes)) (n : ℕ) → length (messages l n) ≡ length l
unfolding messages
length-messages [] n = refl
length-messages ((k, v) ∷ r) n = ap suc (length-messages r (n + 1))

abbrev queued : Channel → ℕ → List Message → Channel
queued c n ms = record c {
  msg_seq_id = n;
  send_msgs = record { queue = c.send_msgs.queue ++ ms; stopped = c.send_msgs.stopped };
}

then_ok :
    (first next : M (Unit {0})) (c d : Channel) → first c ≡ (ok tt, d) → (first >> next) c ≡ next d
then_ok first next c d h =
    ap
      (λ p. elim p.0 as (λ _. Result (Unit {0}) × Channel) [
        | err e ↦ (err e, p.1)
        | ok a ↦ next p.1
      ])
      h

send_async_all-cons :
    (k v : Bytes) (r : List (Bytes × Bytes)) (c d : Channel)
    → send_async k v c ≡ (ok tt, d)
    → send_async_all ((k, v) ∷ r) c ≡ send_async_all r d
unfolding send_async_all
send_async_all-cons k v r c d h = then_ok (send_async k v) (send_async_all r) c d h

send_async_all-queued :
    (l : List (Bytes × Bytes)) (c : Channel)
    → AllNormal l
    → c.aborting ≡ false
    → c.waiting_finish ≡ false
    → c.disable_msg_seq_id ≡ false
    → c.msg_seq_id + length l < 2 ^ 64
    → send_async_all l c ≡ (ok tt, queued c (c.msg_seq_id + length l) (messages l c.msg_seq_id))
unfolding send_async_all messages
send_async_all-queued [] c normal a w d m = ground (arith, append-nil c.send_msgs.queue)
send_async_all-queued ((k, v) ∷ r) c normal a w d m =
    let n = c.msg_seq_id in
    let id : (n + 1) % 2 ^ 64 ≡ n + 1 = omega arith in
    let one : Message = record {
      seq_id = n + 1;
      msg_key = build_channel_key k (n + 1);
      value = v;
    } in
    let first : send_async k v c ≡ (ok tt, queued c (n + 1) (one ∷ [])) =
      (send_async_open k v c normal.0 a w d).0
      ∙ ap
          (λ t. (
            ok tt,
            queued c t (record { seq_id = t; msg_key = build_channel_key k t; value = v } ∷ []),
          ))
          id in
    let rest = send_async_all-queued r (queued c (n + 1) (one ∷ [])) normal.1 a w d (omega arith) in
    send_async_all-cons k v r c (queued c (n + 1) (one ∷ [])) first
    ∙ rest
    ∙ ap₂
        (λ t q. (
          ok tt,
          record c {
            msg_seq_id = t;
            send_msgs = record { queue = q; stopped = c.send_msgs.stopped };
          },
        ))
        (omega arith) (append_assoc c.send_msgs.queue (one ∷ []) (messages r (n + 1)))

-- On an open channel with sequence ids, `SendAsync` of any values under normal keys, one after the
-- other, where the ids and the number of running tasks stay below 2 ^ 64, succeeds each time. The last loop of the send thread then
-- submits what was queued before and after it one message for each value, in the order of the calls
-- and with consecutive ids, from whose key the receiver splits off the caller's key and the id; and
-- it leaves the queue empty.
pub drain-send_async_all :
    (l : List (Bytes × Bytes)) (c : Channel)
    → AllNormal l
    → c.aborting ≡ false
    → c.waiting_finish ≡ false
    → c.disable_msg_seq_id ≡ false
    → c.msg_seq_id + length l < 2 ^ 64
    → c.send_sync.running_tasks + length c.send_msgs.queue + length l < 2 ^ 64
    → (ms : List Message) × (d : Channel) × (send_async_all l c ≡ (ok tt, d))
      × Numbered l c.msg_seq_id ms
      × (d.msg_seq_id ≡ c.msg_seq_id + length l)
      × ((drain d).tasks ≡ c.tasks ++ (c.send_msgs.queue ++ ms))
      × ((drain d).send_msgs.queue ≡ [])
drain-send_async_all l c normal a w d m few =
    let ms = messages l c.msg_seq_id in
    let after = queued c (c.msg_seq_id + length l) ms in
    let (tasks, emptied, running) =
      drain_lem after
        (omega (arith, length-append c.send_msgs.queue ms, length-messages l c.msg_seq_id)) in
    (
      ms,
      after,
      send_async_all-queued l c normal a w d m,
      messages-Numbered l c.msg_seq_id normal m,
      refl,
      tasks,
      emptied,
    )
