-- ===== src/Channel/Close.antt =====
-- `WaitLinkTaskFinish`, its steps, and `Abort` (link/transport/channel.cc).
pub mod Done
pub mod Reached
use mathlib.Core.Option
use yacl_r.Base.{
  ℕ, Bool, true, false, not, ◌&&◌, leb, List, [], ◌∷◌, Option, none, some, Bytes, ◌==◌,
  if◌then◌else◌,
}
use yacl_r.Decimal.{to_string}
use yacl_r.Segments
use yacl_r.Segments.{SegmentTree}
use yacl_r.Channel.Key.{k_fin}
use yacl_r.Channel.State.{Channel, Message, MessageQueue, wait_until, submit_send_task, send_ack}

-- What other threads do in the four waits of `WaitLinkTaskFinish`, one list for each wait.
pub record Waits : Type 0 where
  pub for_fin : List (Channel → Channel)
  pub for_flying_msg : List (Channel → Channel)
  pub for_send_thread : List (Channel → Channel)
  pub for_send_tasks : List (Channel → Channel)
  pub for_flying_ack : List (Channel → Channel)

ack_all : List (Bytes × (Bytes × ℕ)) → Channel → Channel
ack_all [] c = c
ack_all ((k, (v, seq_id)) ∷ r) c = ack_all r (send_ack seq_id c)

unfoldable pub stop_receiving_and_ack_unread_msgs : Channel → Channel
unfolding ack_all
stop_receiving_and_ack_unread_msgs c =
    let d = ack_all c.recv_msgs (record c { waiting_finish = true }) in record d { recv_msgs = [] }

-- "recv all msg from 1 to" `n`
unfoldable pub all_until : ℕ → SegmentTree → Bool
all_until n t = leb (Segments.segments_count t) 1 && Segments.contains 1 t && Segments.contains n t

pub fin_of : ℕ → Message
fin_of n = record { seq_id = 0; msg_key = k_fin; value = to_string n }

-- The condition at which the loop over flying messages ends.
unfoldable pub all_received : Channel → Bool
all_received c = all_until c.peer_sent_msg_count c.received_msg_ids

-- Whether there is nothing to wait for: the peer sent nothing, or the loop ends at its first test.
unfoldable pub flying_msg_done : Channel → Bool
unfolding all_received
flying_msg_done c = if c.peer_sent_msg_count == 0 then true else all_received c

unfoldable pub wait_for_fin_and_flying_msg : Waits → Channel → Option Channel
unfolding flying_msg_done
wait_for_fin_and_flying_msg w c =
    Option.bind
      (wait_until (λ d. d.received_fin) w.for_fin (submit_send_task (fin_of c.msg_seq_id) c))
      λ d. if flying_msg_done d then some d else wait_until all_received w.for_flying_msg d

stop_queue : Channel → Channel
stop_queue c = record c {
  send_thread_stopped = true;
  send_msgs = record { queue = c.send_msgs.queue; stopped = true };
}

unfoldable pub wait_async_send_to_finish : Waits → Channel → Option Channel
unfolding stop_queue
wait_async_send_to_finish w c =
    Option.bind (wait_until (λ d. d.send_thread_ended) w.for_send_thread (stop_queue c))
      (wait_until (λ d. d.send_sync.running_tasks == 0) w.for_send_tasks)

unfoldable pub wait_for_flying_ack : Waits → Channel → Option Channel
wait_for_flying_ack w c =
    let n = c.msg_seq_id in
    if n == 0 then some c else wait_until (λ d. all_until n d.received_ack_ids) w.for_flying_ack c

unfoldable pub wait_link_task_finish : Waits → Channel → Option Channel
wait_link_task_finish w c =
    if c.aborting
    then some c
    else Option.bind (wait_for_fin_and_flying_msg w (stop_receiving_and_ack_unread_msgs c))
        λ d. Option.bind (wait_async_send_to_finish w d) (wait_for_flying_ack w)

-- `~Channel`
pub destroy : Waits → Channel → Option Channel
destroy w c = if c.send_thread_stopped then some c else wait_async_send_to_finish w c

-- `Abort`. It ends when the send thread does.
aborted : Channel → Channel
unfolding stop_queue
aborted c =
    stop_queue
      (record c { aborting = true; send_sync = record (c.send_sync) { task_aborting = true } })

pub abort : List (Channel → Channel) → Channel → Option Channel
unfolding aborted
abort ws c = wait_until (λ d. d.send_thread_ended) ws (aborted c)
