-- ===== src/Tests/Strings.antt =====
-- The string helpers (yacl/utils/strings.cc) on small inputs.
use yacl_r.Base.{◌≡◌, refl, [], ◌∷◌, some, arith, Bytes}
use yacl_r.Strings
use yacl_r.Strings.Hex
use yacl_r.Strings.Split

abbrev two_bytes : Bytes
two_bytes = 10 ∷ 255 ∷ []

hex_string_to_bytes-bytes_to_hex_string_example :
    Strings.hex_string_to_bytes (Strings.bytes_to_hex_string two_bytes) ≡ some two_bytes
hex_string_to_bytes-bytes_to_hex_string_example =
    Hex.hex_string_to_bytes-bytes_to_hex_string two_bytes (omega arith, (omega arith, tt))

str_join-str_split_example :
    Strings.str_join (Strings.str_split (b'a' ∷ b',' ∷ b'b' ∷ []) b',') (b',' ∷ [])
    ≡ b'a' ∷ b',' ∷ b'b' ∷ []
str_join-str_split_example = Split.str_join-str_split b',' (b'a' ∷ b',' ∷ b'b' ∷ [])

strips_both_ends :
    Strings.strip_ascii_whitespace (b' ' ∷ 9 ∷ b'a' ∷ b' ' ∷ b'b' ∷ 10 ∷ [])
    ≡ b'a' ∷ b' ' ∷ b'b' ∷ []
unfolding Strings.strip_ascii_whitespace Strings.strip_start Strings.strip_end
    Strings.ascii_is_whitespace
strips_both_ends = refl

strips_all : Strings.strip_ascii_whitespace (b' ' ∷ b' ' ∷ []) ≡ []
unfolding Strings.strip_ascii_whitespace Strings.strip_start Strings.strip_end
    Strings.ascii_is_whitespace
strips_all = refl
