-- ===== src/Channel/Close/Done.antt =====
-- What holds when the steps of `WaitLinkTaskFinish` end.
use mathlib.Core.Option
use yacl_r.Base.{
  ℕ, zero, suc, Bool-cases, inl, inr, ◌≤◌, ◌≡◌, refl, sym, ap, subst, ◌∙◌, true, false, List, [],
  ◌∷◌, ◌++◌, append-nil, append_assoc, Option, none, some, arith, Bytes, ltb, ◌==◌, if◌then◌else◌,
}
use yacl_r.Segments
use yacl_r.Segments.{SegmentTree}
use yacl_r.Segments.Set
use yacl_r.Channel.State.{
  Channel, Message, wait_until, wait_until-done, send_ack, ack_of, submit_send_task,
}
use yacl_r.Channel.Close.{
  Waits, ack_all, stop_queue, stop_receiving_and_ack_unread_msgs, all_until, all_received,
  flying_msg_done, fin_of, wait_for_fin_and_flying_msg, wait_async_send_to_finish,
  wait_for_flying_ack, wait_link_task_finish,
}

-- One segment that holds 1 and `n` holds all between.
pub all_until-contains :
    (n x : ℕ) (t : SegmentTree)
    → Set.IsValid t
    → all_until n t ≡ true
    → 1 ≤ x
    → x ≤ n
    → Segments.contains x t ≡ true
unfolding all_until
all_until-contains n x t v h lo hi =
    Set.contains_between t 1 n x v (ground (arith, h)) (ground (arith, h)) (ground (arith, h)) lo hi

-- The tree holds every number from 1 to `n`.
abbrev pub AllTo : ℕ → SegmentTree → Type 0
AllTo zero t = Unit {0}
AllTo (suc n) t = (Segments.contains (suc n) t ≡ true) × AllTo n t

all_until-AllTo :
    (n m : ℕ) (t : SegmentTree) → Set.IsValid t → all_until m t ≡ true → n ≤ m → AllTo n t
all_until-AllTo zero m t v h le = tt
all_until-AllTo (suc n) m t v h le =
    (all_until-contains m (suc n) t v h (omega arith) le, all_until-AllTo n m t v h (omega arith))

-- The state in which the first wait for FIN ended, before the second.
bind_inv :
    {A B : Type 0} (o : Option A) (f : A → Option B) (b : B)
    → Option.bind o f ≡ some b
    → (a : A) × (o ≡ some a) × (f a ≡ some b)
unfolding Option.bind
bind_inv none f b h = absurd (ground arith)
bind_inv (some a) f b h = (a, refl, h)

all_received-AllTo :
    (d : Channel)
    → Set.IsValid d.received_msg_ids
    → all_received d ≡ true
    → AllTo d.peer_sent_msg_count d.received_msg_ids
unfolding all_received
all_received-AllTo d v h =
    all_until-AllTo d.peer_sent_msg_count d.peer_sent_msg_count d.received_msg_ids v h (omega arith)

flying_msg_done-AllTo :
    (d : Channel)
    → Set.IsValid d.received_msg_ids
    → flying_msg_done d ≡ true
    → AllTo d.peer_sent_msg_count d.received_msg_ids
unfolding flying_msg_done
flying_msg_done-AllTo d v h = elim (Bool-cases (d.peer_sent_msg_count == 0)) [
  | inl e ↦
      let none_sent : d.peer_sent_msg_count ≡ 0 = ground arith in
      subst (λ n. AllTo n d.received_msg_ids) (sym none_sent) tt
  | inr e ↦ all_received-AllTo d v (ground (arith, h))
]

-- The wait for the messages, behind the one for FIN.
flying_wait-AllTo :
    (ws : List (Channel → Channel)) (s d : Channel)
    → (if flying_msg_done s then some s else wait_until all_received ws s) ≡ some d
    → Set.IsValid d.received_msg_ids
    → AllTo d.peer_sent_msg_count d.received_msg_ids
flying_wait-AllTo ws s d h v = elim (Bool-cases (flying_msg_done s)) [
  | inl e ↦
      let same : s ≡ d = some-inj (rw e at h) in
      flying_msg_done-AllTo d v (ap flying_msg_done (sym same) ∙ e)
  | inr e ↦ all_received-AllTo d v (wait_until-done all_received ws s d (rw e at h))
]
  where
    some-inj : {a b : Channel} → some a ≡ some b → a ≡ b
    some-inj h = ground arith

-- When `WaitForFinAndFlyingMsg` ends in a state whose set of received ids is valid, every message that
-- the peer says it sent has been received.
pub wait_for_fin_and_flying_msg-all :
    (w : Waits) (c d : Channel)
    → wait_for_fin_and_flying_msg w c ≡ some d
    → Set.IsValid d.received_msg_ids
    → AllTo d.peer_sent_msg_count d.received_msg_ids
unfolding wait_for_fin_and_flying_msg
wait_for_fin_and_flying_msg-all w c d h v =
    let (s, first, second) =
      bind_inv
        (wait_until (λ e. e.received_fin) w.for_fin (submit_send_task (fin_of c.msg_seq_id) c))
        (λ e. if flying_msg_done e then some e else wait_until all_received w.for_flying_msg e) d
        h in
    flying_wait-AllTo w.for_flying_msg s d second v

-- When `WaitForFlyingAck` ends in a state whose set of acknowledged ids is valid, every message that
-- was sent until it began has been acknowledged.
pub wait_for_flying_ack-all :
    (w : Waits) (c d : Channel)
    → wait_for_flying_ack w c ≡ some d
    → Set.IsValid d.received_ack_ids
    → AllTo c.msg_seq_id d.received_ack_ids
unfolding wait_for_flying_ack
wait_for_flying_ack-all w c d h v = elim (Bool-cases (c.msg_seq_id == 0)) [
  | inl e ↦
      let none_sent : c.msg_seq_id ≡ 0 = ground arith in
      subst (λ n. AllTo n d.received_ack_ids) (sym none_sent) tt
  | inr e ↦
      all_until-AllTo c.msg_seq_id c.msg_seq_id d.received_ack_ids v
        (wait_until-done (λ f. all_until c.msg_seq_id f.received_ack_ids) w.for_flying_ack c d
          (rw (e, wait_for_flying_ack) at h))
        (omega arith)
]

idle_after :
    (w : Waits) (c d : Channel)
    → wait_async_send_to_finish w c ≡ some d
    → d.send_sync.running_tasks ≡ 0
unfolding wait_async_send_to_finish
idle_after w c d h =
    let (s, first, second) =
      bind_inv (wait_until (λ e. e.send_thread_ended) w.for_send_thread (stop_queue c))
        (wait_until (λ e. e.send_sync.running_tasks == 0) w.for_send_tasks) d h in
    let idle : (d.send_sync.running_tasks == 0) ≡ true =
      wait_until-done (λ e. e.send_sync.running_tasks == 0) w.for_send_tasks s d second in
    ground arith

-- The acknowledgements of unread messages, in the order of the keys; a test message has none.
abbrev pub acks_of : List (Bytes × (Bytes × ℕ)) → List Message
acks_of [] = []
acks_of ((k, (v, n)) ∷ r) = if ltb 0 n then ack_of n ∷ acks_of r else acks_of r

ack_all-tasks :
    (l : List (Bytes × (Bytes × ℕ))) (c : Channel)
    → ((ack_all l c).tasks ≡ c.tasks ++ acks_of l)
      × ((ack_all l c).waiting_finish ≡ c.waiting_finish)
unfolding ack_all send_ack
ack_all-tasks [] c = (sym (append-nil c.tasks), refl)
ack_all-tasks ((k, (v, n)) ∷ r) c =
    ground (arith, ack_all-tasks r (send_ack n c), append_assoc c.tasks (ack_of n ∷ []) (acks_of r))

-- `StopReceivingAndAckUnreadMsgs` acknowledges every unread message, in the order of the keys, drops
-- them all, and makes the channel one that is closing.
pub stop_receiving_lem :
    (c : Channel)
    → let d = stop_receiving_and_ack_unread_msgs c in
      (d.tasks ≡ c.tasks ++ acks_of c.recv_msgs) × (d.recv_msgs ≡ []) × (d.waiting_finish ≡ true)
unfolding stop_receiving_and_ack_unread_msgs
stop_receiving_lem c =
    let e = ack_all-tasks c.recv_msgs (record c { waiting_finish = true }) in (e.0, refl, e.1)

-- The states between the waits of a `WaitLinkTaskFinish` that goes from `c` to `d`: in `heard` the
-- peer's messages are in, and in `sent` the own ones are out.
pub record Finishes (w : Waits) (c d : Channel) : Type 0 where
  pub heard : Channel
  pub sent : Channel
  pub hears : wait_for_fin_and_flying_msg w (stop_receiving_and_ack_unread_msgs c) ≡ some heard
  pub sends : wait_async_send_to_finish w heard ≡ some sent
  pub idle : sent.send_sync.running_tasks ≡ 0
  pub acknowledged : AllTo sent.msg_seq_id d.received_ack_ids

-- When `WaitLinkTaskFinish` of a channel that is not aborting ends, in a state whose set of
-- acknowledged ids is valid, it has stopped receiving, waited for the peer's messages and then for its
-- own to go out. After that no send task ran, and every message sent until then is acknowledged now.
pub wait_link_task_finish-all :
    (w : Waits) (c d : Channel)
    → c.aborting ≡ false
    → wait_link_task_finish w c ≡ some d
    → Set.IsValid d.received_ack_ids
    → Finishes w c d
unfolding wait_link_task_finish
wait_link_task_finish-all w c d a h v =
    let begun = stop_receiving_and_ack_unread_msgs c in
    let (s, first, rest) =
      bind_inv (wait_for_fin_and_flying_msg w begun)
        (λ e. Option.bind (wait_async_send_to_finish w e) (wait_for_flying_ack w)) d
        (subst (λ b. (if b then some c else rest_of begun) ≡ some d) a h) in
    let (t, second, last) =
      bind_inv (wait_async_send_to_finish w s) (wait_for_flying_ack w) d rest in
    record {
      heard = s;
      sent = t;
      hears = first;
      sends = second;
      idle = idle_after w s t second;
      acknowledged = wait_for_flying_ack-all w t d last v;
    }
  where
    rest_of : Channel → Option Channel
    rest_of begun =
        Option.bind (wait_for_fin_and_flying_msg w begun)
          (λ e. Option.bind (wait_async_send_to_finish w e) (wait_for_flying_ack w))
