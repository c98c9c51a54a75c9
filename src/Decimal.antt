-- ===== src/Decimal.antt =====
-- The decimal conversions that link/transport/channel.cc and yacl/utils/strings.cc rest on:
-- `std::to_string` of a `size_t`, and `SimpleAtoi` at `uint64_t` (`std::from_chars`, all read).
use yacl_r.Base.{
  ℕ, zero, suc, ◌+◌, ◌-◌, ◌*◌, ◌/◌, ◌%◌, ◌^◌, ◌<◌, ◌≡◌, ◌≢◌, refl, ap, ◌∙◌, Bool, ◌&&◌, [], ◌∷◌,
  Option, none, some, arith, Bytes, ltb, leb, if◌then◌else◌, Bool-cases, inl, inr,
}

-- The digits of `n` in front of `out`. One round more than `n` is always enough.
digits : ℕ → ℕ → Bytes → Bytes
digits zero n out = out
digits (suc f) n out =
    let rest = digits f (n / 10) ((b'0' + n % 10) ∷ out) in
    if ltb n 10 then (b'0' + n) ∷ out else rest

unfoldable pub to_string : ℕ → Bytes
unfolding digits
to_string n = digits (suc n) n []

abbrev pub is_digit : ℕ → Bool
is_digit c = leb b'0' c && leb c b'9'

-- `std::from_chars` into a `uint64_t`: an overflow is an error.
read : Bytes → ℕ → Option ℕ
read [] n = some n
read (c ∷ s) n =
    if is_digit c && ltb (n * 10 + (c - b'0')) (2 ^ 64) then read s (n * 10 + (c - b'0')) else none

-- Nothing to read is an error.
unfoldable pub simple_atoi : Bytes → Option ℕ
unfolding read
simple_atoi [] = none
simple_atoi (c ∷ s) = read (c ∷ s) 0

read-digit :
    (d n : ℕ) (s : Bytes)
    → d < 10
    → n * 10 + d < 2 ^ 64
    → read ((b'0' + d) ∷ s) n ≡ read s (n * 10 + d)
unfolding read
read-digit d n s h m = let e : b'0' + d - b'0' ≡ d = omega arith in rw e (ground arith)

read-digits : (f n : ℕ) (out : Bytes) → n < f → n < 2 ^ 64 → read (digits f n out) 0 ≡ read out n
unfolding digits
read-digits zero n out h m = absurd (omega arith)
read-digits (suc f) n out h m = elim (Bool-cases (ltb n 10)) [
  | inl e ↦ rw e (read-digit n 0 out (ground arith) (omega arith) ∙ ap (read out) (omega arith))
  | inr e ↦ rw e (
      read-digits f (n / 10) _ (ground arith) (omega arith)
      ∙ read-digit (n % 10) (n / 10) out (omega arith) (omega arith)
      ∙ ap (read out) (omega arith))
]

digits-ne-nil : (f n c : ℕ) (out : Bytes) → digits f n (c ∷ out) ≢ []
unfolding digits
digits-ne-nil zero n c out = λ e. cc
digits-ne-nil (suc f) n c out = elim (Bool-cases (ltb n 10)) [
  | inl e ↦ rw e (λ h. cc)
  | inr e ↦ rw e (digits-ne-nil f (n / 10) (b'0' + n % 10) (c ∷ out))
]

pub to_string-ne-nil : (n : ℕ) → to_string n ≢ []
unfolding to_string
to_string-ne-nil n = elim (Bool-cases (ltb n 10)) [
  | inl e ↦ rw e (λ h. cc)
  | inr e ↦ rw e (digits-ne-nil n (n / 10) (b'0' + n % 10) [])
]

simple_atoi-read : (s : Bytes) → s ≢ [] → simple_atoi s ≡ read s 0
unfolding simple_atoi
simple_atoi-read [] h = absurd (h refl)
simple_atoi-read (c ∷ s) h = refl

-- What `std::to_string` prints of a 64-bit number, `SimpleAtoi` reads back.
pub simple_atoi-to_string : (n : ℕ) → n < 2 ^ 64 → simple_atoi (to_string n) ≡ some n
unfolding to_string read
simple_atoi-to_string n m =
    simple_atoi-read (to_string n) (to_string-ne-nil n) ∙ read-digits (suc n) n [] (omega arith) m
