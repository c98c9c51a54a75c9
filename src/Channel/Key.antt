-- ===== src/Channel/Key.antt =====
-- The keys of messages on the wire (link/transport/channel.cc): a normal message carries its
-- sequence id behind a separator that no key of the application may hold; ACK and FIN have keys of
-- their own.
use mathlib.Core.Option
use yacl_r.Base.{
  ℕ, suc, ◌+◌, ◌^◌, ◌<◌, ◌≡◌, ◌≢◌, refl, sym, ap, ◌∙◌, Bool, true, false, not, ◌&&◌, [], ◌∷◌, ◌++◌,
  Option, none, some, arith, Bytes, ◌==◌, if◌then◌else◌, length, take, drop, Result, ok, ◌>>=◌,
  ◌>>◌, enforce, or_throw, enforce_not_met, same, same-false,
}
use yacl_r.Decimal.{to_string, simple_atoi, simple_atoi-to_string, to_string-ne-nil}

abbrev pub k_ack : Bytes
k_ack = b'A' ∷ b'C' ∷ b'K' ∷ 1 ∷ 2 ∷ []

abbrev pub k_fin : Bytes
k_fin = b'F' ∷ b'I' ∷ b'N' ∷ 1 ∷ 2 ∷ []

abbrev pub k_seq : Bytes
k_seq = 1 ∷ 2 ∷ []

begins_seq : Bytes → Bool
begins_seq [] = false
begins_seq (a ∷ []) = false
begins_seq (a ∷ b ∷ r) = a == 1 && b == 2

-- `key.find(kSeqKey)`, with `none` for `npos`
unfoldable pub find_seq : Bytes → Option ℕ
unfolding begins_seq
find_seq [] = none
find_seq (x ∷ r) = if begins_seq (x ∷ r) then some 0 else Option.map suc (find_seq r)

is_empty : Bytes → Bool
is_empty [] = true
is_empty (x ∷ r) = false

is_none : Option ℕ → Bool
is_none none = true
is_none (some n) = false

unfoldable pub normal_message_key_enforce : Bytes → Result (Unit {0})
unfolding find_seq is_empty is_none
normal_message_key_enforce k = do enforce (not (is_empty k)); enforce (is_none (find_seq k))

-- `size_t` is 64 bits wide, so the second check of the source never fails.
unfoldable pub view_to_size_t : Bytes → Result ℕ
view_to_size_t v = or_throw (simple_atoi v) enforce_not_met

unfoldable pub build_channel_key : Bytes → ℕ → Bytes
build_channel_key msg_key seq_id = msg_key ++ (1 ∷ 2 ∷ to_string seq_id)

split_at : Bytes → Option ℕ → Result (Bytes × ℕ)
split_at key none = ok (key, 0)
split_at key (some pos) = do seq_id ← view_to_size_t (drop (pos + 2) key); ok (take pos key, seq_id)

unfoldable pub split_channel_key : Bytes → Result (Bytes × ℕ)
unfolding split_at
split_channel_key key = split_at key (find_seq key)

find_seq-append : (k s : Bytes) → find_seq k ≡ none → find_seq (k ++ (1 ∷ 2 ∷ s)) ≡ some (length k)
unfolding find_seq begins_seq
find_seq-append [] s h = refl
find_seq-append (x ∷ []) s h = ground arith
find_seq-append (x ∷ y ∷ k) s h = ground (arith, find_seq-append (y ∷ k) s)

take-length : (k s : Bytes) → take (length k) (k ++ s) ≡ k
take-length [] s = refl
take-length (x ∷ k) s = ap (◌∷◌ x) (take-length k s)

drop-length : (k s : Bytes) (a b : ℕ) → drop (length k + 2) (k ++ (a ∷ b ∷ s)) ≡ s
drop-length [] s a b = refl
drop-length (x ∷ k) s a b =
    let e : suc (length k) + 2 ≡ suc (length k + 2) = omega arith in rw e (drop-length k s a b)

pub view_to_size_t-to_string : (n : ℕ) → n < 2 ^ 64 → view_to_size_t (to_string n) ≡ ok n
unfolding view_to_size_t
view_to_size_t-to_string n h = rw (simple_atoi-to_string n h)

-- What `SplitChannelKey` makes of a key that `BuildChannelKey` built from a key without the separator
-- and a 64-bit sequence id: that key and that id.
pub split_channel_key-build_channel_key :
    (k : Bytes) (seq_id : ℕ)
    → find_seq k ≡ none
    → seq_id < 2 ^ 64
    → split_channel_key (build_channel_key k seq_id) ≡ ok (k, seq_id)
unfolding split_channel_key build_channel_key
split_channel_key-build_channel_key k seq_id h m = rw (
  find_seq-append k (to_string seq_id) h,
  split_at,
  drop-length k (to_string seq_id) 1 2,
  view_to_size_t-to_string seq_id m,
  take-length k (1 ∷ 2 ∷ to_string seq_id),
)

build-ne-control :
    (c k : Bytes) (seq_id : ℕ)
    → find_seq c ≡ some 3
    → drop 5 c ≡ []
    → find_seq k ≡ none
    → build_channel_key k seq_id ≢ c
unfolding build_channel_key
build-ne-control c k seq_id f d h e = to_string-ne-nil seq_id (sym dropped ∙ d)
  where
    three : length k ≡ 3
    three = ground (arith, find_seq-append k (to_string seq_id) h, ap find_seq e)

    dropped : drop 5 c ≡ to_string seq_id
    dropped =
        ap (drop 5) (sym e)
        ∙ (let n : 5 ≡ length k + 2 = omega (arith, three) in
            rw n (drop-length k (to_string seq_id) 1 2))

pub lacks_of_enforce : (k : Bytes) → normal_message_key_enforce k ≡ ok tt → find_seq k ≡ none
unfolding normal_message_key_enforce
lacks_of_enforce k h = ground arith

-- A key that passes `NormalMessageKeyEnforce` gives a channel key that is neither the ACK key nor the
-- FIN key, and is neither of them itself, as it is sent when sequence ids are disabled.
pub normal-ne-control :
    (k : Bytes) (seq_id : ℕ)
    → normal_message_key_enforce k ≡ ok tt
    → (same (build_channel_key k seq_id) k_ack ≡ false)
      × (same (build_channel_key k seq_id) k_fin ≡ false)
      × (same k k_ack ≡ false)
      × (same k k_fin ≡ false)
normal-ne-control k seq_id h = (
  same-false _ _ (build-ne-control k_ack k seq_id ack refl lacks),
  same-false _ _ (build-ne-control k_fin k seq_id fin refl lacks),
  same-false _ _ (λ e. ground (arith, ack, lacks, ap find_seq e)),
  same-false _ _ (λ e. ground (arith, fin, lacks, ap find_seq e)),
)
  where
    lacks : find_seq k ≡ none
    lacks = lacks_of_enforce k h

    ack : find_seq k_ack ≡ some 3
    ack = unfold find_seq begins_seq in refl

    fin : find_seq k_fin ≡ some 3
    fin = unfold find_seq begins_seq in refl
