-- ===== src/Strings/Hex.antt =====
-- Printing and parsing of hex strings (yacl/utils/strings.cc).
use yacl_r.Base.{
  ℕ, ◌+◌, ◌*◌, ◌/◌, ◌%◌, ◌<◌, ◌≡◌, ◌∙◌, refl, ap, [], ◌∷◌, some, arith, Bytes, length, Option-cases,
  Bool-cases, inl, inr, ◌==◌,
}
use yacl_r.Strings.{
  hex_char, bytes_to_hex_string, hex_value, hex_byte, hex_pairs, hex_string_to_bytes,
  ascii_to_lower, ascii_str_to_lower,
}

abbrev pub AllBytes : Bytes → Type 0
AllBytes [] = Unit {0}
AllBytes (c ∷ r) = (c < 256) × AllBytes r

hex_value-hex_char : (d : ℕ) → d < 16 → hex_value (hex_char d) ≡ some d
unfolding hex_value hex_char
hex_value-hex_char d h = ground arith

hex_byte-hex_char : (c : ℕ) → c < 256 → hex_byte (hex_char (c / 16)) (hex_char (c % 16)) ≡ some c
unfolding hex_byte
hex_byte-hex_char c h =
    let whole : c / 16 * 16 + c % 16 ≡ c = omega arith in
    ground (
      arith,
      whole,
      hex_value-hex_char (c / 16) (omega arith),
      hex_value-hex_char (c % 16) (omega arith),
    )

hex_pairs-bytes_to_hex_string :
    (bs : Bytes) → AllBytes bs → hex_pairs (bytes_to_hex_string bs) ≡ some bs
unfolding hex_pairs bytes_to_hex_string
hex_pairs-bytes_to_hex_string [] h = refl
hex_pairs-bytes_to_hex_string (c ∷ r) h =
    ground (arith, hex_byte-hex_char c h.0, hex_pairs-bytes_to_hex_string r h.1)

even-length : (bs : Bytes) → length (bytes_to_hex_string bs) % 2 ≡ 0
unfolding bytes_to_hex_string
even-length [] = refl
even-length (c ∷ r) = omega (arith, even-length r)

-- `HexStringToBytes` reads back what `BytesToHexString` printed.
pub hex_string_to_bytes-bytes_to_hex_string :
    (bs : Bytes) → AllBytes bs → hex_string_to_bytes (bytes_to_hex_string bs) ≡ some bs
unfolding hex_string_to_bytes
hex_string_to_bytes-bytes_to_hex_string bs h =
    rw (even-length bs, hex_pairs-bytes_to_hex_string bs h) refl

hex_char-hex_value : (c d : ℕ) → hex_value c ≡ some d → (hex_char d ≡ ascii_to_lower c) × (d < 16)
unfolding hex_value hex_char ascii_to_lower
hex_char-hex_value c d h = ground arith

hex_char-hex_byte :
    (a b x : ℕ)
    → hex_byte a b ≡ some x
    → (hex_char (x / 16) ≡ ascii_to_lower a) × (hex_char (x % 16) ≡ ascii_to_lower b)
unfolding hex_byte
hex_char-hex_byte a b x h = elim (Option-cases (hex_value a)) [
  | inl e ↦ absurd (ground (arith, e))
  | inr (p, ea) ↦ elim (Option-cases (hex_value b)) [
    | inl e ↦ absurd (ground (arith, e, ea))
    | inr (q, eb) ↦
        let high = hex_char-hex_value a p ea in
        let low = hex_char-hex_value b q eb in
        let sum : p * 16 + q ≡ x = ground (arith, ea, eb) in
        let first : x / 16 ≡ p = omega (arith, low.1) in
        let second : x % 16 ≡ q = omega (arith, low.1) in
        (ap hex_char first ∙ high.0, ap hex_char second ∙ low.0)
  ]
]

bytes_to_hex_string-hex_pairs :
    (h bs : Bytes) → hex_pairs h ≡ some bs → bytes_to_hex_string bs ≡ ascii_str_to_lower h
unfolding hex_pairs bytes_to_hex_string ascii_str_to_lower
bytes_to_hex_string-hex_pairs [] bs e = ground arith
bytes_to_hex_string-hex_pairs (a ∷ []) bs e = absurd (ground arith)
bytes_to_hex_string-hex_pairs (a ∷ b ∷ r) bs e = elim (Option-cases (hex_byte a b)) [
  | inl n ↦ absurd (ground (arith, n))
  | inr (x, ex) ↦ elim (Option-cases (hex_pairs r)) [
    | inl n ↦ absurd (ground (arith, n, ex))
    | inr (xs, exs) ↦
        let both = hex_char-hex_byte a b x ex in
        let rest = bytes_to_hex_string-hex_pairs r xs exs in ground (arith, ex, exs, both, rest)
  ]
]

-- Printing what `HexStringToBytes` read gives the string that it read, in lower case.
pub bytes_to_hex_string-hex_string_to_bytes :
    (h bs : Bytes) → hex_string_to_bytes h ≡ some bs → bytes_to_hex_string bs ≡ ascii_str_to_lower h
unfolding hex_string_to_bytes
bytes_to_hex_string-hex_string_to_bytes h bs e = elim (Bool-cases (length h % 2 == 0)) [
  | inl even ↦ bytes_to_hex_string-hex_pairs h bs (ground (arith, even))
  | inr odd ↦ absurd (ground (arith, odd))
]
