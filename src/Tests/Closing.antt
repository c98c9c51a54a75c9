-- ===== src/Tests/Closing.antt =====
-- The end of a channel (link/transport/channel.cc) on small inputs.
use mathlib.Core.Option
use yacl_r.Base.{refl, true, [], ◌∷◌, arith}
use yacl_r.Segments
use yacl_r.Segments.Set
use yacl_r.Channel.State.{Channel, send_ack, submit_send_task, wait_until}
use yacl_r.Channel.Close
use yacl_r.Channel.Close.{Waits}
use yacl_r.Channel.Close.Done
use yacl_r.Tests.Channel.{idle}

-- A channel that has sent one message, and has one unread message and one test message.
abbrev leaving : Channel
leaving = record idle {
  msg_seq_id = 1;
  received_ack_ids = Segments.new;
  recv_msgs = ((b'a' ∷ []), ((7 ∷ []), 1)) ∷ ((b'b' ∷ []), ([], 0)) ∷ [];
}

abbrev one : Segments.SegmentTree
one = record { segments = record { first = 1; second = 2 } ∷ []; count = 1 }

one-IsValid : Set.IsValid one
one-IsValid = omega arith

-- The peer's FIN says one message, which is in.
abbrev heard : Channel
heard = record idle {
  msg_seq_id = 1;
  received_fin = true;
  peer_sent_msg_count = 1;
  received_msg_ids = one;
  received_ack_ids = Segments.new;
}

abbrev sent : Channel
sent = record heard { send_thread_ended = true }

abbrev acknowledged : Channel
acknowledged = record sent { received_ack_ids = one }

abbrev waits : Waits
waits = record {
  for_fin = (λ _. heard) ∷ [];
  for_flying_msg = [];
  for_send_thread = (λ _. sent) ∷ [];
  for_send_tasks = [];
  for_flying_ack = (λ _. acknowledged) ∷ [];
}

wait_for_fin_and_flying_msg-all_example : Done.AllTo 1 one
unfolding Close.wait_for_fin_and_flying_msg wait_until Option.bind submit_send_task Close.all_until
    Segments.segments_count Segments.contains
wait_for_fin_and_flying_msg-all_example =
    Done.wait_for_fin_and_flying_msg-all waits leaving heard refl one-IsValid

wait_for_flying_ack-all_example : Done.AllTo 1 one
unfolding Close.wait_for_flying_ack wait_until Close.all_until Segments.segments_count
    Segments.contains
wait_for_flying_ack-all_example =
    Done.wait_for_flying_ack-all waits sent acknowledged refl one-IsValid

wait_link_task_finish-all_example : Done.Finishes waits leaving acknowledged
unfolding Close.wait_link_task_finish wait_until Option.bind Close.wait_for_fin_and_flying_msg
    submit_send_task Close.stop_receiving_and_ack_unread_msgs send_ack Close.all_until
    Segments.segments_count Segments.contains Close.wait_async_send_to_finish
    Close.wait_for_flying_ack
wait_link_task_finish-all_example =
    Done.wait_link_task_finish-all waits leaving acknowledged refl refl one-IsValid
