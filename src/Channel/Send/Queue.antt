-- ===== src/Channel/Send/Queue.antt =====
-- What the sending methods put into the queue, and how the send thread takes it out.

use yacl_r.Base.{
  ℕ, ◌+◌, ◌%◌, ◌^◌, ◌<◌, ◌≡◌, ◌⊎◌, refl, ap, subst, true, false, List, [], ◌∷◌, ◌++◌, append-nil,
  append_assoc, some, arith, Bytes, Result, ok, err, Error, link_aborted, enforce_not_met, ◌==◌,
  if◌then◌else◌, length, Bool-cases, inl, inr,
}
use yacl_r.Segments
use yacl_r.Channel.Key.{
  build_channel_key, split_channel_key, normal_message_key_enforce,
  split_channel_key-build_channel_key, lacks_of_enforce,
}
use yacl_r.Channel.State.{Channel, Message, Wake, wait_for, submit_send_task}
use yacl_r.Channel.Send.{
  send_async, send, throttle_window_wait, throttle_check, window_full, drain, submit_all,
  wait_seq_id_send_finished, start_send, then_wait,
}

-- `SendAsync` of an open channel pushes one message, under the next sequence id and with a key from
-- which the receiver splits off that id and the caller's key, and changes nothing else.
pub send_async_open :
    (k v : Bytes) (c : Channel)
    → normal_message_key_enforce k ≡ ok tt
    → c.aborting ≡ false
    → c.waiting_finish ≡ false
    → c.disable_msg_seq_id ≡ false
    → let seq_id = (c.msg_seq_id + 1) % 2 ^ 64 in
      let key = build_channel_key k seq_id in
      (send_async k v c ≡ (
        ok tt,
        record c {
          msg_seq_id = seq_id;
          send_msgs = record {
            queue = c.send_msgs.queue ++ record { seq_id = seq_id; msg_key = key; value = v } ∷ [];
            stopped = c.send_msgs.stopped;
          };
        },
      ))
      × (split_channel_key key ≡ ok (k, seq_id))
unfolding send_async
send_async_open k v c h a w d =
    (ground arith, split_channel_key-build_channel_key k _ (lacks_of_enforce k h) (omega arith))

-- `SendAsync` throws only because the channel is aborting, because it is closing, or as the check of
-- the key does, tested in that order; and then nothing has changed.
pub send_async_refused :
    (k v : Bytes) (c : Channel) (e : Error)
    → (send_async k v c).0 ≡ err e
    → ((send_async k v c).1 ≡ c)
      × ((send_async k v c).0 ≡ (
          if c.aborting
          then err link_aborted
          else if c.waiting_finish
          then err enforce_not_met
          else normal_message_key_enforce k))
unfolding send_async
send_async_refused k v c e h = ground arith

throttle_loop :
    (n : ℕ) (ws : List Wake) (c d : Channel)
    → wait_for (throttle_check n) ws c ≡ some (ok tt, d)
    → window_full n d ≡ false
unfolding wait_for throttle_check
throttle_loop n [] c d h = ground arith
throttle_loop n (w ∷ ws) c d h = ground (arith, throttle_loop n ws (w.others c) d)

-- When the throttled wait for sequence id `n` returns normally, the throttle window is off, or fewer
-- than `throttle_window_size_` messages up to `n` are without an ACK.
pub throttle_window_wait-open :
    (n : ℕ) (ws : List Wake) (c d : Channel)
    → throttle_window_wait n ws c ≡ some (ok tt, d)
    → d.received_ack_ids.count + d.throttle_window_size < 2 ^ 64
    → (c.throttle_window_size ≡ 0)
      ⊎ (d.throttle_window_size ≡ 0)
      ⊎ (n < d.received_ack_ids.count + d.throttle_window_size)
unfolding throttle_window_wait window_full
throttle_window_wait-open n ws c d h m = elim (Bool-cases (c.throttle_window_size == 0)) [
  | inl e ↦ inl (ground arith)
  | inr e ↦
      let opened : window_full n d ≡ false =
        throttle_loop n ws c d (rw (e, throttle_window_wait) at h) in
      ground (arith, opened)
]

send_loop :
    (n : ℕ) (ws : List (Channel → Channel)) (c d : Channel)
    → wait_seq_id_send_finished n ws c ≡ some (ok tt, d)
    → Segments.contains n d.send_sync.finished_ids ≡ true
unfolding wait_for wait_seq_id_send_finished
send_loop n [] c d h = ground arith
send_loop n (w ∷ ws) c d h = ground (arith, send_loop n ws (w c) d)

start_send-id :
    (k v : Bytes) (c : Channel) (n : ℕ)
    → (start_send k v c).0 ≡ ok n
    → n ≡ (c.msg_seq_id + 1) % 2 ^ 64
unfolding start_send
start_send-id k v c n h = ground arith

-- The wait of `Send`, behind what came before it.
send_waits :
    (ws : List (Channel → Channel)) (r : Result ℕ × Channel) (d : Channel) (m : ℕ)
    → then_wait {A = ℕ} {B = Unit {0}} (λ _. r) (λ n. wait_seq_id_send_finished n ws) d
      ≡ some (ok tt, d)
    → ((n : ℕ) → r.0 ≡ ok n → n ≡ m)
    → Segments.contains m d.send_sync.finished_ids ≡ true
send_waits ws (ok n, c) d m h id =
    subst (λ k. Segments.contains k d.send_sync.finished_ids ≡ true) (id n refl)
      (send_loop n ws c d h)
send_waits ws (err e, c) d m h id = ground arith

-- When `Send` returns normally, the send task of its message, the one with the next sequence id, has
-- ended.
pub send-finished :
    (k v : Bytes) (ws : List (Channel → Channel)) (c d : Channel)
    → send k v ws c ≡ some (ok tt, d)
    → Segments.contains ((c.msg_seq_id + 1) % 2 ^ 64) d.send_sync.finished_ids ≡ true
unfolding send
send-finished k v ws c d h =
    send_waits ws (start_send k v c) d ((c.msg_seq_id + 1) % 2 ^ 64) h (start_send-id k v c)

submit_all_lem :
    (ms : List Message) (c : Channel)
    → c.send_sync.running_tasks + length ms < 2 ^ 64
    → submit_all ms c ≡ record c {
      tasks = c.tasks ++ ms;
      send_sync = record (c.send_sync) { running_tasks = c.send_sync.running_tasks + length ms };
    }
unfolding submit_all submit_send_task
submit_all_lem [] c h = ground (arith, append-nil c.tasks)
submit_all_lem (m ∷ ms) c h =
    let one : (c.send_sync.running_tasks + 1) % 2 ^ 64 ≡ c.send_sync.running_tasks + 1 =
      omega arith in
    ground (
      arith,
      submit_all_lem ms (submit_send_task m c) (rw one (omega arith)),
      append_assoc c.tasks (m ∷ []) ms,
    )

-- The last loop of the send thread submits every queued message, in the order of the queue, and leaves
-- the queue empty.
pub drain_lem :
    (c : Channel)
    → c.send_sync.running_tasks + length c.send_msgs.queue < 2 ^ 64
    → ((drain c).tasks ≡ c.tasks ++ c.send_msgs.queue)
      × ((drain c).send_msgs.queue ≡ [])
      × ((drain c).send_sync.running_tasks ≡ c.send_sync.running_tasks + length c.send_msgs.queue)
unfolding drain
drain_lem c h =
    let e = submit_all_lem c.send_msgs.queue emptied h in
    (ap tasks_of e, ap queue_of e, ap running_of e)
  where
    emptied : Channel
    emptied = record c { send_msgs = record { queue = []; stopped = c.send_msgs.stopped } }

    tasks_of : Channel → List Message
    tasks_of d = d.tasks

    queue_of : Channel → List Message
    queue_of d = d.send_msgs.queue

    running_of : Channel → ℕ
    running_of d = d.send_sync.running_tasks
