-- ===== src/Channel/State.antt =====
-- The fields of `Channel` (link/transport/channel.h) and the operations on them that the rest of
-- the channel shares. A mutex makes each handler one step; a condition variable has no state.
use yacl_r.Base.{
  ℕ, ◌*◌, ◌+◌, ◌-◌, ◌%◌, ◌^◌, Bool, true, false, List, [], ◌∷◌, ◌++◌, Option, none, some, Bytes,
  Result, ok, err, io_error, ◌≡◌, arith, Bool-cases, inl, inr, ltb, ◌==◌, if◌then◌else◌,
}
use yacl_r.Decimal.{to_string}
use yacl_r.Segments
use yacl_r.Segments.{SegmentTree}
use yacl_r.Channel.Key.{k_ack}

pub record Message : Type 0 where
  pub seq_id : ℕ
  pub msg_key : Bytes
  pub value : Bytes

pub record MessageQueue : Type 0 where
  pub queue : List Message
  pub stopped : Bool

pub record SendTaskSynchronizer : Type 0 where
  pub running_tasks : ℕ
  pub finished_ids : SegmentTree
  pub task_aborting : Bool

-- `received` is the set of the offsets seen.
pub record ChunkedMessage : Type 0 where
  pub received : List ℕ
  pub bytes_written : ℕ
  pub message : Bytes

-- `send_thread_ended` says that the thread of `send_thread_` has returned, so that `join` returns.
-- `recv_msgs` has a value and its sequence id for each key. `tasks` are the detached threads of
-- `SubmitSendTask` that run, by the message that each sends.
pub record Channel : Type 0 where
  pub send_msgs : MessageQueue
  pub send_thread_stopped : Bool
  pub send_thread_ended : Bool
  pub send_sync : SendTaskSynchronizer
  pub chunked_values : List (Bytes × ChunkedMessage)
  pub chunk_parallel_send_size : ℕ
  pub recv_msgs : List (Bytes × (Bytes × ℕ))
  pub throttle_window_size : ℕ
  pub waiting_finish : Bool
  pub aborting : Bool
  pub msg_seq_id : ℕ
  pub received_msg_ids : SegmentTree
  pub received_ack_ids : SegmentTree
  pub received_fin : Bool
  pub peer_sent_msg_count : ℕ
  pub disable_msg_seq_id : Bool
  pub recv_timeout_ms : ℕ
  pub tasks : List Message

-- The constructors: the thread of `StartSendThread` runs. Without a timeout it is the default.
unfoldable pub new : Option ℕ → Channel
new recv_timeout_ms = record {
  send_msgs = record { queue = []; stopped = false };
  send_thread_stopped = false;
  send_thread_ended = false;
  send_sync = record { running_tasks = 0; finished_ids = Segments.new; task_aborting = false };
  chunked_values = [];
  chunk_parallel_send_size = 8;
  recv_msgs = [];
  throttle_window_size = 0;
  waiting_finish = false;
  aborting = false;
  msg_seq_id = 0;
  received_msg_ids = Segments.new;
  received_ack_ids = Segments.new;
  received_fin = false;
  peer_sent_msg_count = 0;
  disable_msg_seq_id = false;
  recv_timeout_ms = elim recv_timeout_ms [ none ↦ 3 * 60 * 1000 | some ms ↦ ms ];
  tasks = [];
}

pub set_recv_timeout : ℕ → Channel → Channel
set_recv_timeout recv_timeout_ms c = record c { recv_timeout_ms = recv_timeout_ms }

pub get_recv_timeout : Channel → ℕ
get_recv_timeout c = c.recv_timeout_ms

pub set_throttle_window_size : ℕ → Channel → Channel
set_throttle_window_size size c = record c { throttle_window_size = size }

-- The field is a `uint32_t`, and the argument a `size_t`.
pub set_chunk_parallel_send_size : ℕ → Channel → Channel
set_chunk_parallel_send_size size c = record c { chunk_parallel_send_size = size % 2 ^ 32 }

pub set_disable_msg_seq_id : Bool → Channel → Channel
set_disable_msg_seq_id disable c = record c { disable_msg_seq_id = disable }

-- A method returns or throws, and either way leaves a state.
abbrev pub M : Type 0 → Type 0
M A = Channel → Result A × Channel

infixl 5 ◌>>=◌ ◌>>◌
abbrev pub ◌>>=◌ : {B A : Type 0} → M A → (A → Channel → Result B × Channel) → M B
◌>>=◌ m next c = let (r, after) = m c in elim r [ err e ↦ (err e, after) | ok a ↦ next a after ]

abbrev pub ◌>>◌ : {R : Type 0} → M (Unit {0}) → M R → M R
first >> second = first >>= λ done. second

abbrev pub lift : {A : Type 0} → Result A → M A
lift r c = (r, c)

abbrev pub modify : (Channel → Channel) → M (Unit {0})
modify f c = (ok tt, f c)

abbrev pub gets : {A : Type 0} → (Channel → A) → M A
gets f c = (ok (f c), c)

-- What happens while a thread waits on a condition variable: the others change the state, and the
-- wait ends by a notification or by its timeout.
pub record Wake : Type 0 where
  pub timed_out : Bool
  pub others : Channel → Channel

-- The result of a method that may wait: `none` while it still waits.
abbrev pub Waiting : Type 0 → Type 0
Waiting A = Option (Result A × Channel)

-- A loop on `wait_for` with a timeout. `check` is one round: it returns, throws, or goes on to wait.
unfoldable pub wait_for : {A : Type 0} → (Channel → Waiting A) → List Wake → Channel → Waiting A
wait_for check [] c = check c
wait_for check (w ∷ ws) c = elim (check c) [
  | some r ↦ some r
  | none ↦
      let rest = wait_for check ws (w.others c) in
      if w.timed_out then some (err io_error, w.others c) else rest
]

-- A loop on `wait`, which has no timeout: the state in which it ends.
unfoldable pub wait_until : (Channel → Bool) → List (Channel → Channel) → Channel → Option Channel
wait_until done [] c = if done c then some c else none
wait_until done (others ∷ ws) c = elim (done c) [
  | true ↦ some c
  | false ↦ wait_until done ws (others c)
]

-- A wait that ends, ends in a state that passes its test.
pub wait_until-done :
    (done : Channel → Bool) (ws : List (Channel → Channel)) (c d : Channel)
    → wait_until done ws c ≡ some d
    → done d ≡ true
unfolding wait_until
wait_until-done done [] c d h = ground arith
wait_until-done done (others ∷ ws) c d h = elim (Bool-cases (done c)) [
  | inl e ↦ ground (arith, e)
  | inr e ↦ wait_until-done done ws (others c) d (rw (e, wait_until) at h)
]

-- `SendTaskStartNotify`, `SendTaskFinishedNotify`
pub send_task_start_notify : SendTaskSynchronizer → SendTaskSynchronizer
send_task_start_notify s = record s { running_tasks = (s.running_tasks + 1) % 2 ^ 64 }

pub send_task_finished_notify : ℕ → SendTaskSynchronizer → SendTaskSynchronizer
send_task_finished_notify seq_id s = record s {
  running_tasks = (s.running_tasks + 2 ^ 64 - 1) % 2 ^ 64;
  finished_ids = if seq_id == 0 then s.finished_ids else (Segments.insert seq_id s.finished_ids).0;
}

-- The constructor of `SendTask` and the start of its thread.
unfoldable pub submit_send_task : Message → Channel → Channel
unfolding send_task_start_notify
submit_send_task msg c = record c {
  send_sync = send_task_start_notify c.send_sync;
  tasks = c.tasks ++ msg ∷ [];
}

-- The message of an ACK, and `SendAck`.
unfoldable pub ack_of : ℕ → Message
ack_of seq_id = record { seq_id = 0; msg_key = k_ack; value = to_string seq_id }

unfoldable pub send_ack : ℕ → Channel → Channel
unfolding submit_send_task ack_of
send_ack seq_id c = if ltb 0 seq_id then submit_send_task (ack_of seq_id) c else c
