-- ===== src/Strings.antt =====
-- String helpers (yacl/utils/strings.cc, strings.h): hex strings, splitting and joining, letter case.
pub mod Case
pub mod Hex
pub mod Split
use yacl_r.Base.{
  ℕ, zero, suc, get_elem?, take, drop, ◌||◌, ◌+◌, ◌-◌, ◌*◌, ◌/◌, ◌%◌, Bool, ◌&&◌, not, List, [],
  ◌∷◌, ◌++◌, Option, none, some, false, Bytes, ltb, leb, ◌==◌, if◌then◌else◌, length,
}

-- `kHexChars[d]`
pub hex_char : ℕ → ℕ
hex_char d = if ltb d 10 then b'0' + d else b'a' + (d - 10)

pub bytes_to_hex_string : Bytes → Bytes
bytes_to_hex_string [] = []
bytes_to_hex_string (c ∷ r) = hex_char (c / 16) ∷ hex_char (c % 16) ∷ bytes_to_hex_string r

-- A digit of `std::from_chars` in base 16.
unfoldable pub hex_value : ℕ → Option ℕ
hex_value c =
    if leb b'0' c && leb c b'9'
    then some (c - b'0')
    else if leb b'a' c && leb c b'f'
    then some (c - b'a' + 10)
    else if leb b'A' c && leb c b'F'
    then some (c - b'A' + 10)
    else none

-- Two characters make a byte if both are digits: otherwise `from_chars` fails, or stops after one.
unfoldable pub hex_byte : ℕ → ℕ → Option ℕ
unfolding hex_value
hex_byte a b = elim (hex_value a) [
  | none ↦ none
  | some h ↦ elim (hex_value b) [ none ↦ none | some l ↦ some (h * 16 + l) ]
]

-- The rounds of the loop; the length is even.
unfoldable pub hex_pairs : Bytes → Option Bytes
hex_pairs [] = some []
hex_pairs (a ∷ []) = none
hex_pairs (a ∷ b ∷ r) = elim (hex_byte a b) [
  | none ↦ none
  | some byte ↦ elim (hex_pairs r) [ none ↦ none | some bytes ↦ some (byte ∷ bytes) ]
]

-- `none` for `false`; what `out` holds then is not modelled.
unfoldable pub hex_string_to_bytes : Bytes → Option Bytes
hex_string_to_bytes hex = if not (length hex % 2 == 0) then none else hex_pairs hex

pub ascii_to_lower : ℕ → ℕ
ascii_to_lower c = if leb b'A' c && leb c b'Z' then c - b'A' + b'a' else c

pub ascii_str_to_lower : Bytes → Bytes
ascii_str_to_lower [] = []
ascii_str_to_lower (c ∷ r) = ascii_to_lower c ∷ ascii_str_to_lower r

pub ascii_to_upper : ℕ → ℕ
ascii_to_upper c = if leb b'a' c && leb c b'z' then c - b'a' + b'A' else c

pub ascii_str_to_upper : Bytes → Bytes
ascii_str_to_upper [] = []
ascii_str_to_upper (c ∷ r) = ascii_to_upper c ∷ ascii_str_to_upper r

-- `StrSplit` at a character; `piece` is what stands between `start` and `i`.
pub split_loop : Bytes → ℕ → Bytes → List Bytes
split_loop piece delim [] = piece ∷ []
split_loop piece delim (c ∷ r) =
    let cut = split_loop [] delim r in
    let longer = split_loop (piece ++ c ∷ []) delim r in if c == delim then piece ∷ cut else longer

pub str_split : Bytes → ℕ → List Bytes
str_split sv delim = split_loop [] delim sv

-- `StrJoin`: the rounds from the second on.
pub join_rest : List Bytes → Bytes → Bytes
join_rest [] sep = []
join_rest (p ∷ ps) sep = sep ++ (p ++ join_rest ps sep)

pub str_join : List Bytes → Bytes → Bytes
str_join [] sep = []
str_join (p ∷ ps) sep = p ++ join_rest ps sep

unfoldable pub ascii_is_whitespace : ℕ → Bool
ascii_is_whitespace c = c == b' ' || c == 9 || c == 10 || c == 13 || c == 12 || c == 11

-- The loops of `StripAsciiWhitespace`: how far `start` goes up, and then `end` down.
unfoldable pub strip_start : Bytes → ℕ
strip_start [] = 0
strip_start (c ∷ r) = let rest = strip_start r in if ascii_is_whitespace c then suc rest else 0

unfoldable pub strip_end : Bytes → ℕ → ℕ → ℕ
strip_end sv start zero = 0
strip_end sv start (suc e) =
    let rest = strip_end sv start e in
    if ltb start (suc e) && elim (get_elem? sv e) [ none ↦ false | some c ↦ ascii_is_whitespace c ]
    then rest
    else suc e

unfoldable pub strip_ascii_whitespace : Bytes → Bytes
unfolding strip_start strip_end ascii_is_whitespace
strip_ascii_whitespace sv =
    let start = strip_start sv in take (strip_end sv start (length sv) - start) (drop start sv)
