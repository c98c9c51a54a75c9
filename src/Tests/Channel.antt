-- ===== src/Tests/Channel.antt =====
-- Messages through a channel (link/transport/channel.cc) on small inputs.

use yacl_r.Base.{
  ◌+◌, ◌<◌, ◌≡◌, ◌⊎◌, refl, true, false, List, [], ◌∷◌, ◌++◌, arith, Bytes, ok, err,
  enforce_not_met, same,
}
use yacl_r.Base.Dict.{lookup}
use yacl_r.Segments
use yacl_r.Segments.{SegmentTree}
use yacl_r.Channel.Key
use yacl_r.Channel.Key.{
  build_channel_key, split_channel_key, normal_message_key_enforce, find_seq, k_ack, k_fin,
}
use yacl_r.Channel.State.{Channel, Message, send_ack, wait_for}
use yacl_r.Channel.Receive.{on_message}
use yacl_r.Channel.Receive.Deliver
use yacl_r.Channel.Receive.Any.{BelowLargest, Collects, on_messages, on_messages-Collects}
use yacl_r.Channel.Receive.Reach.{Arrival, normal}
use yacl_r.Channel.Send.{drain}
use yacl_r.Channel.Send.Order.{send_async_all, Numbered, drain-send_async_all}
use yacl_r.Channel.Close.Reached
use yacl_r.Channel.Retry
use yacl_r.Channel.Retry.{
  RetryOptions, Attempt, sent, link_error, Promise, send_request_with_retry, default_options,
}

abbrev key_a : Bytes
key_a = b'a' ∷ []

key_a_normal : normal_message_key_enforce key_a ≡ ok tt
unfolding normal_message_key_enforce
key_a_normal = refl

key_b_normal : normal_message_key_enforce (b'b' ∷ []) ≡ ok tt
unfolding normal_message_key_enforce
key_b_normal = refl

-- An open channel that has sent 4 messages, of which 2 are acknowledged.
abbrev pub idle : Channel
idle = record {
  send_msgs = record { queue = []; stopped = false };
  send_thread_stopped = false;
  send_thread_ended = false;
  send_sync = record { running_tasks = 0; finished_ids = Segments.new; task_aborting = false };
  chunked_values = [];
  chunk_parallel_send_size = 8;
  recv_msgs = [];
  throttle_window_size = 2;
  waiting_finish = false;
  aborting = false;
  msg_seq_id = 4;
  received_msg_ids = Segments.new;
  received_ack_ids = record { segments = record { first = 1; second = 3 } ∷ []; count = 2 };
  received_fin = false;
  peer_sent_msg_count = 0;
  disable_msg_seq_id = false;
  recv_timeout_ms = 180000;
  tasks = [];
}

split_channel_key-build_channel_key_example :
    split_channel_key (build_channel_key key_a 17) ≡ ok (key_a, 17)
unfolding find_seq
split_channel_key-build_channel_key_example =
    Key.split_channel_key-build_channel_key key_a 17 refl (omega arith)

deliver_recv_ack_example : Deliver.Delivers key_a (7 ∷ 8 ∷ []) 3 [] idle idle
unfolding lookup Segments.contains
deliver_recv_ack_example =
    Deliver.deliver_recv_ack key_a (7 ∷ 8 ∷ []) 3 [] idle idle key_a_normal (omega arith)
      (omega arith) (omega arith) refl refl refl refl (omega arith)

on_message_twice_example :
    let d = (on_message (build_channel_key key_a 3) (7 ∷ []) idle).1 in
    on_message (build_channel_key key_a 3) (9 ∷ []) d ≡ (ok tt, d)
on_message_twice_example =
    Deliver.on_message_twice key_a (7 ∷ []) key_a (9 ∷ []) 3 idle key_a_normal key_a_normal
      (omega arith) (omega arith) (omega arith)

abbrev closing : Channel
closing = record idle { waiting_finish = true }

-- Two values, as messages 5 and 6.
drain-send_async_all_example :
    (ms : List Message) × (d : Channel) × (send_async_all
        ((key_a, 7 ∷ []) ∷ (b'b' ∷ [], 8 ∷ []) ∷ [])
        idle
      ≡ (ok tt, d))
    × Numbered ((key_a, 7 ∷ []) ∷ (b'b' ∷ [], 8 ∷ []) ∷ []) 4 ms
    × (d.msg_seq_id ≡ 6)
    × ((drain d).tasks ≡ idle.tasks ++ (idle.send_msgs.queue ++ ms))
    × ((drain d).send_msgs.queue ≡ [])
drain-send_async_all_example =
    drain-send_async_all ((key_a, 7 ∷ []) ∷ (b'b' ∷ [], 8 ∷ []) ∷ []) idle
      (key_a_normal, (key_b_normal, tt)) refl refl refl (omega arith) (omega arith)

-- The send task of message 5 ends while `Send` waits.
abbrev five_sent : Channel → Channel
five_sent c = record c {
  send_sync = record (c.send_sync) {
    finished_ids = (Segments.insert 5 c.send_sync.finished_ids).0;
  };
}

abbrev loaded : Channel
loaded = record idle {
  send_msgs = record {
    queue =
        record { seq_id = 5; msg_key = key_a; value = [] }
        ∷ record { seq_id = 6; msg_key = key_a; value = [] }
        ∷ [];
    stopped = true;
  };
}

-- Two failures, then a success.
abbrev attempts : List Attempt
attempts =
    record { aborting = false; outcome = link_error (record { code = 5; http_code = 0 }) }
    ∷ record { aborting = false; outcome = link_error (record { code = 5; http_code = 0 }) }
    ∷ record { aborting = false; outcome = sent }
    ∷ []

send_request_with_retry-Promise_example :
    Promise default_options 0 attempts (send_request_with_retry default_options attempts)
send_request_with_retry-Promise_example =
    Retry.send_request_with_retry-Promise default_options attempts

-- Message 2 twice, then message 1, the FIN and an ACK.
abbrev arrivals : List Arrival
arrivals =
    normal key_a 2 []
    ∷ normal key_a 2 []
    ∷ normal (b'b' ∷ []) 1 []
    ∷ Arrival.fin 2
    ∷ Arrival.ack 3
    ∷ []

-- A key without an id, an id that cannot be read, a test message, the FIN, an ACK twice, and message 6.
abbrev any_messages : List (Bytes × Bytes)
any_messages =
    (key_a, [])
    ∷ (build_channel_key key_a 0, [])
    ∷ (key_a ++ (1 ∷ 2 ∷ b'x' ∷ []), [])
    ∷ (k_fin, b'2' ∷ [])
    ∷ (k_ack, b'3' ∷ [])
    ∷ (k_ack, b'3' ∷ [])
    ∷ (k_ack, b'x' ∷ [])
    ∷ (build_channel_key key_a 6, [])
    ∷ []

any_messages-BelowLargest : BelowLargest any_messages
unfolding same split_channel_key find_seq Key.view_to_size_t yacl_r.Decimal.simple_atoi
    yacl_r.Decimal.to_string build_channel_key
any_messages-BelowLargest = (
  omega arith,
  λ n h. ground (arith, h),
  (
    omega arith,
    λ n h. ground (arith, h),
    (
      omega arith,
      λ n h. ground (arith, h),
      (
        omega arith,
        λ n h. ground (arith, h),
        (
          omega arith,
          λ n h. ground (arith, h),
          (
            omega arith,
            λ n h. ground (arith, h),
            (omega arith, λ n h. ground (arith, h), (omega arith, λ n h. ground (arith, h), tt)),
          ),
        ),
      ),
    ),
  ),
)

on_messages-Collects_example : Collects any_messages idle (on_messages any_messages idle)
on_messages-Collects_example =
    on_messages-Collects any_messages idle any_messages-BelowLargest (omega arith, omega arith)
