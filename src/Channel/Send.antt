-- ===== src/Channel/Send.antt =====
-- The sending methods of link/transport/channel.cc, the send thread and the send tasks.
pub mod Order
pub mod Queue
use mathlib.Core.Option
use yacl_r.Base.{
  ℕ, zero, suc, map, get_elem?, ◌+◌, ◌%◌, ◌^◌, Bool, true, false, not, ◌&&◌, ◌||◌, List, [], ◌∷◌,
  ◌++◌, Option, none, some, Bytes, Result, ok, err, Error, runtime_error, enforce_not_met,
  link_aborted, ltb, leb, ◌==◌, if◌then◌else◌, enforce, throw_if,
}
use yacl_r.Segments
use yacl_r.Channel.Key.{build_channel_key, normal_message_key_enforce}
use yacl_r.Channel.State.{
  Channel, Message, MessageQueue, M, ◌>>=◌, ◌>>◌, lift, modify, gets, Wake, Waiting, wait_for,
  submit_send_task, send_task_finished_notify,
}

-- `MessageQueue::Push`, and `Pop`, which waits once at most: `wakes` is what the others do meanwhile.
push : Message → MessageQueue → MessageQueue
push msg q = record q { queue = q.queue ++ msg ∷ [] }

pop_front : MessageQueue → Option Message × MessageQueue
pop_front q = elim q.queue [ [] ↦ (none, q) | m ∷ r ↦ (some m, record q { queue = r }) ]

-- The checks that the sending methods begin with.
may_send : Bytes → M (Unit {0})
may_send msg_key = do
  aborting ← gets (λ c. c.aborting)
  lift (throw_if aborting link_aborted)
  closing ← gets (λ c. c.waiting_finish)
  lift (enforce (not closing))
  lift (normal_message_key_enforce msg_key)

-- `msg_seq_id_.fetch_add(1) + 1`
next_seq_id : M ℕ
next_seq_id c = let n = (c.msg_seq_id + 1) % 2 ^ 64 in (ok n, record c { msg_seq_id = n })

push_message : Message → Channel → Channel
unfolding push
push_message msg c = record c { send_msgs = push msg c.send_msgs }

-- The part that the sending methods share: a sequence id and a push.
enqueue : Bytes → Bytes → M ℕ
unfolding next_seq_id push_message
enqueue msg_key value = do
  seq_id ← next_seq_id
  modify (
      push_message
        (record { seq_id = seq_id; msg_key = build_channel_key msg_key seq_id; value = value }))
  gets (λ _. seq_id)

unfoldable pub send_async : Bytes → Bytes → M (Unit {0})
unfolding may_send enqueue push_message
send_async msg_key value = do
  may_send msg_key
  plain ← gets (λ c. c.disable_msg_seq_id)
  if plain
      then modify (push_message (record { seq_id = 0; msg_key = msg_key; value = value }))
      else (do _ ← enqueue msg_key value; gets (λ _. tt))

-- What a method does before it waits, and the wait.
abbrev then_wait : {A B : Type 0} → M A → (A → Channel → Waiting B) → Channel → Waiting B
then_wait m f c = let (r, d) = m c in elim r [ ok a ↦ f a d | err e ↦ some (err e, d) ]

-- A wait with no timeout.
abbrev notified : (Channel → Channel) → Wake
notified others = record { timed_out = false; others = others }

wait_seq_id_check : ℕ → Channel → Waiting (Unit {0})
wait_seq_id_check seq_id c =
    if Segments.contains seq_id c.send_sync.finished_ids
    then some (ok tt, c)
    else if c.send_sync.task_aborting
    then some (err link_aborted, c)
    else none

unfoldable pub wait_seq_id_send_finished :
    ℕ → List (Channel → Channel) → Channel → Waiting (Unit {0})
unfolding wait_seq_id_check
wait_seq_id_send_finished seq_id ws = wait_for (wait_seq_id_check seq_id) (map notified ws)

start_send : Bytes → Bytes → M ℕ
unfolding enqueue
start_send msg_key value = do
  aborting ← gets (λ c. c.aborting)
  lift (throw_if aborting link_aborted)
  plain ← gets (λ c. c.disable_msg_seq_id)
  lift (throw_if plain runtime_error)
  closing ← gets (λ c. c.waiting_finish)
  lift (enforce (not closing))
  lift (normal_message_key_enforce msg_key)
  enqueue msg_key value

unfoldable pub send : Bytes → Bytes → List (Channel → Channel) → Channel → Waiting (Unit {0})
unfolding start_send
send msg_key value ws =
    then_wait (start_send msg_key value) λ seq_id. wait_seq_id_send_finished seq_id ws

-- The window is full while `received_ack_ids_.Count() + throttle_window_size_ <= wait_count`.
unfoldable pub window_full : ℕ → Channel → Bool
window_full wait_count c =
    not (c.throttle_window_size == 0)
    && leb ((c.received_ack_ids.count + c.throttle_window_size) % 2 ^ 64) wait_count

throttle_check : ℕ → Channel → Waiting (Unit {0})
throttle_check wait_count c =
    if window_full wait_count c
    then (if c.aborting then some (err link_aborted, c) else none)
    else some (ok tt, c)

unfoldable pub throttle_window_wait : ℕ → List Wake → Channel → Waiting (Unit {0})
unfolding throttle_check
throttle_window_wait wait_count ws c =
    if c.throttle_window_size == 0
    then some (ok tt, c)
    else wait_for (throttle_check wait_count) ws c

pub send_async_throttled : Bytes → Bytes → List Wake → Channel → Waiting (Unit {0})
unfolding may_send enqueue
send_async_throttled msg_key value ws c =
    if c.aborting
    then some (err link_aborted, c)
    else if c.disable_msg_seq_id
    then some (send_async msg_key value c)
    else then_wait (do may_send msg_key; enqueue msg_key value)
        (λ seq_id. throttle_window_wait seq_id ws) c

-- The key of `TestSend`, `connect_<rank>` under sequence id 0, or the exception.
pub test_send_key : Bytes → Channel → Result Bytes
test_send_key msg_key c =
    if c.aborting
    then err link_aborted
    else if c.waiting_finish
    then err enforce_not_met
    else ok (build_channel_key msg_key 0)

-- What the others do in a round of the send thread: before `Pop` returns, and while the thread waits
-- for the window.
pub record Round : Type 0 where
  pub before_pop : Channel → Channel
  pub wakes : List Wake

send_popped : List Wake → Option Message × MessageQueue → Channel → Waiting (Unit {0})
send_popped ws (none, q) c = some (ok tt, c)
send_popped ws (some msg, q) c =
    throttle_window_wait msg.seq_id ws (submit_send_task msg (record c { send_msgs = q }))

is_empty_queue : List Message → Bool
is_empty_queue [] = true
is_empty_queue (m ∷ r) = false

-- One round of the first loop of `SendThread`. `Pop(true)` waits if the queue is empty and not stopped.
pub send_round : Round → Channel → Waiting (Unit {0})
unfolding send_popped pop_front is_empty_queue
send_round r c =
    let d =
      if is_empty_queue c.send_msgs.queue && not c.send_msgs.stopped then r.before_pop c else c in
    send_popped r.wakes (pop_front d.send_msgs) d

-- Its second loop: "link is closing, send all pending msgs".
submit_all : List Message → Channel → Channel
submit_all [] c = c
submit_all (m ∷ r) c = submit_all r (submit_send_task m c)

pub drain : Channel → Channel
unfolding submit_all
drain c =
    submit_all c.send_msgs.queue (record c { send_msgs = record { queue = []; stopped = stopped } })
  where
    open c.send_msgs use {stopped}

-- `none` while the thread runs on.
pub send_thread : List Round → Channel → Waiting (Unit {0})
send_thread [] c =
    if c.send_thread_stopped then some (ok tt, if c.aborting then c else drain c) else none
send_thread (r ∷ rs) c = elim c.send_thread_stopped [
  | true ↦ some (ok tt, if c.aborting then c else drain c)
  | false ↦ elim (send_round r c) [
    | none ↦ none
    | some (res, d) ↦ elim res [ err e ↦ some (err e, d) | ok _ ↦ send_thread rs d ]
  ]
]

-- `StartSendThread`: an exception of `SendThread` is caught and logged.
pub start_send_thread : List Round → Channel → Option Channel
start_send_thread rs c =
    Option.map (λ r. let d = r.1 in record d { send_thread_ended = true }) (send_thread rs c)

remove_at : ℕ → List Message → List Message
remove_at i [] = []
remove_at zero (m ∷ r) = r
remove_at (suc i) (m ∷ r) = m ∷ remove_at i r

-- A send task ends, whether `SendImpl` returned or threw: `~SendTask`.
pub end_task : ℕ → Channel → Channel
unfolding remove_at
end_task i c = elim (get_elem? c.tasks i) [
  | none ↦ c
  | some m ↦ record c {
    tasks = remove_at i c.tasks;
    send_sync = send_task_finished_notify m.seq_id c.send_sync;
  }
]
