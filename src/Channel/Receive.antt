-- ===== src/Channel/Receive.antt =====
-- The handlers of link/transport/channel.cc that the receiver loop calls, and `Recv`.
pub mod Any
pub mod Deliver
pub mod Reach
use mathlib.Core.Option
use yacl_r.Base.{
  ℕ, ◌+◌, ◌-◌, ◌%◌, ◌^◌, ◌≤◌, ◌≡◌, refl, Bool, true, false, not, ◌&&◌, ◌||◌, List, [], ◌∷◌, ◌++◌,
  Option, none, some, Bytes, Result, ok, err, Error, runtime_error, logic_error, io_error,
  link_aborted, fault, ltb, leb, ◌==◌, if◌then◌else◌, length, take, drop, same,
}
use yacl_r.Base.Dict.{lookup, insert, update, erase}
use yacl_r.Segments
use yacl_r.Channel.Key.{k_ack, k_fin, split_channel_key, view_to_size_t, normal_message_key_enforce}
use yacl_r.Channel.State.{
  Channel, ChunkedMessage, M, ◌>>=◌, ◌>>◌, lift, modify, gets, Wake, Waiting, wait_for, send_ack,
}

-- A request as the link has unpacked it.
pub data Request : Type 0 where
  mono : Bytes → Bytes → Request
  chunked : Bytes → Bytes → ℕ → ℕ → Request
  other : Request

-- What `FillResponseOk` or `FillResponseError` answers.
pub data Response : Type 0 where
  filled_ok filled_error : Response

-- The end of `OnNormalMessage`, for an id that is new or 0.
store_message : Bytes → ℕ → Bytes → M (Unit {0})
store_message msg_key seq_id v c =
    if c.waiting_finish then (ok tt, send_ack seq_id c) else elim (lookup msg_key c.recv_msgs) [
      | none ↦ (ok tt, record c { recv_msgs = insert msg_key (v, seq_id) c.recv_msgs })
      | some _ ↦ if ltb 0 seq_id then (err runtime_error, c) else (ok tt, c)
    ]

-- The body of `OnNormalMessage`, behind `SplitChannelKey`. A known id is ignored; id 0 skips the test.
pub receive_message : Bytes → ℕ → Bytes → M (Unit {0})
unfolding store_message
receive_message msg_key seq_id v c =
    let (ids, fresh) = Segments.insert seq_id c.received_msg_ids in
    if seq_id == 0
    then store_message msg_key seq_id v c
    else if fresh
    then store_message msg_key seq_id v (record c { received_msg_ids = ids })
    else (ok tt, c)

pub on_normal_message : Bytes → Bytes → M (Unit {0})
unfolding receive_message
on_normal_message key v = do parts ← lift (split_channel_key key); receive_message parts.0 parts.1 v

on_ack : Bytes → M (Unit {0})
on_ack value = do
  seq_id ← lift (view_to_size_t value)
  modify (λ c. record c { received_ack_ids = (Segments.insert seq_id c.received_ack_ids).0 })

-- The flag is set before the count is read.
on_fin : Bytes → M (Unit {0})
on_fin value c =
    if c.received_fin
    then (ok tt, c)
    else (do
      modify (λ d. record d { received_fin = true })
      count ← lift (view_to_size_t value)
      modify (λ d. record d { peer_sent_msg_count = count }))
        c

unfoldable pub on_message : Bytes → Bytes → M (Unit {0})
unfolding on_ack on_fin on_normal_message
on_message key value =
    if same key k_ack
    then on_ack value
    else if same key k_fin
    then on_fin value
    else on_normal_message key value

unfoldable pub mem : ℕ → List ℕ → Bool
mem x [] = false
mem x (y ∷ ys) = y == x || mem x ys

-- `memcpy(m + offset, data)`; `none` where it writes past the end.
unfoldable pub copy_at : Bytes → ℕ → Bytes → Option Bytes
copy_at m offset bytes =
    if leb (offset + length bytes) (length m)
    then some (take offset m ++ (bytes ++ drop (offset + length bytes) m))
    else none

unfoldable pub add_chunk : ChunkedMessage → ℕ → Bytes → Option ChunkedMessage
unfolding mem copy_at
add_chunk t offset bytes =
    if mem offset t.received
    then some t
    else Option.map
        (λ m. record {
          received = offset ∷ t.received;
          bytes_written = t.bytes_written + length bytes;
          message = m;
        })
        (copy_at t.message offset bytes)

unfoldable pub is_fully_filled : ChunkedMessage → Bool
is_fully_filled t = t.bytes_written == length t.message

-- The memory that a new `Buffer` of a given size holds; nothing is known of its bytes.
module _ (alloc : ℕ → Bytes) where
  unfoldable pub new_chunked_message : ℕ → ChunkedMessage
  new_chunked_message total = record { received = []; bytes_written = 0; message = alloc total }

  -- The entry of `key`, made if it is missing.
  open_chunked : Bytes → ℕ → Channel → ChunkedMessage × Channel
  unfolding new_chunked_message
  open_chunked key total c = elim (lookup key c.chunked_values) [
    | some t ↦ (t, c)
    | none ↦
        let t = new_chunked_message total in
        (t, record c { chunked_values = insert key t c.chunked_values })
  ]

  -- `OnMessage` runs after the entry is erased.
  close_chunked : Bytes → ChunkedMessage → M (Unit {0})
  close_chunked key t c =
      if is_fully_filled t
      then on_message key t.message (record c { chunked_values = erase key c.chunked_values })
      else (ok tt, record c { chunked_values = update key t c.chunked_values })

  pub on_chunked_message : Bytes → Bytes → ℕ → ℕ → M (Unit {0})
  unfolding open_chunked close_chunked
  on_chunked_message key value offset total c =
      if ltb total ((offset + length value) % 2 ^ 64)
      then (err logic_error, c)
      else let (t, d) = open_chunked key total c in
        elim (add_chunk t offset value) [ none ↦ (err fault, d) | some t' ↦ close_chunked key t' d ]

  pub on_request : Request → Channel → Result Response × Channel
  on_request r c = if c.aborting then (err link_aborted, c) else handle r c
    where
      handle : Request → M Response
      handle (mono key value) = do on_message key value; gets (λ _. filled_ok)
      handle (chunked key value offset total) = do
        on_chunked_message key value offset total
        gets (λ _. filled_ok)
      handle other = gets (λ _. filled_error)

-- `stop_waiting`: the stored value of the key and its id, taken out.
take_message : Bytes → Channel → Option ((Bytes × ℕ) × Channel)
take_message msg_key c =
    Option.map (λ p. (p, record c { recv_msgs = erase msg_key c.recv_msgs }))
      (lookup msg_key c.recv_msgs)

-- One round of `while (!stop_waiting()) …`: `none` where it goes on to wait.
recv_check : Bytes → Channel → Waiting (Bytes × ℕ)
unfolding take_message
recv_check msg_key c = elim (take_message msg_key c) [
  | some (p, d) ↦ some (ok p, d)
  | none ↦ if c.aborting then some (err link_aborted, c) else none
]

-- The message is acknowledged before it is returned.
finish_recv : Result (Bytes × ℕ) × Channel → Result Bytes × Channel
finish_recv (ok (v, seq_id), d) = (ok v, send_ack seq_id d)
finish_recv (err e, d) = (err e, d)

pub recv : Bytes → List Wake → Channel → Waiting Bytes
unfolding recv_check finish_recv
recv msg_key ws c =
    if c.aborting then some (err link_aborted, c) else elim (normal_message_key_enforce msg_key) [
      | err e ↦ some (err e, c)
      | ok _ ↦ Option.map finish_recv (wait_for (recv_check msg_key) ws c)
    ]

-- `TestRecv`: the key is `connect_<rank of the peer>`.
pub test_recv : Bytes → List Wake → Channel → Waiting (Unit {0})
test_recv msg_key ws c = Option.map (λ r. (drop_value r.0, r.1)) (recv msg_key ws c)
  where
    drop_value : Result Bytes → Result (Unit {0})
    drop_value (ok v) = ok tt
    drop_value (err e) = err e
