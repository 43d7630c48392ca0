-- ===== src/Text/Encode.antt =====
-- UTF-8, `encoding/hex`, `encoding/base64` and the escapes of `net/url`.
use uncut_core.Base.{
  ltb, eqb, if◌then◌else◌, All, ℕ, ◌+◌, ◌-◌, ◌*◌, ◌/◌, ◌%◌, ◌<◌, ◌≡◌, refl, Bool, true, ◌||◌,
  Option, none, some, List, [], ◌∷◌, ◌++◌, arith,
}
use uncut_core.Text.{Text, in_range, is_lower, is_upper, is_digit}

abbrev pub Bytes : Type 0
Bytes = List ℕ

-- The bytes of one code point.
utf8_code : ℕ → Bytes
utf8_code c =
    if ltb c 0x80
    then c ∷ []
    else if ltb c 0x800
    then (0xc0 + c / 64) ∷ (0x80 + c % 64) ∷ []
    else if ltb c 0x10000
    then (0xe0 + c / 4096) ∷ (0x80 + c / 64 % 64) ∷ (0x80 + c % 64) ∷ []
    else (0xf0 + c / 262144) ∷ (0x80 + c / 4096 % 64) ∷ (0x80 + c / 64 % 64) ∷ (0x80 + c % 64) ∷ []

unfoldable pub utf8 : Text → Bytes
unfolding utf8_code
utf8 [] = []
utf8 (c ∷ s) = utf8_code c ++ utf8 s

unfoldable pub hex_digit : ℕ → ℕ
hex_digit d = if ltb d 10 then b'0' + d else b'a' + (d - 10)

-- `hex.EncodeToString`
unfoldable pub hex_encode : Bytes → Text
unfolding hex_digit
hex_encode [] = []
hex_encode (b ∷ bs) = hex_digit (b / 16) ∷ hex_digit (b % 16) ∷ hex_encode bs

hex_value : ℕ → Option ℕ
unfolding is_digit
hex_value c =
    if is_digit c
    then some (c - b'0')
    else if in_range b'a' b'f' c
    then some (c - b'a' + 10)
    else if in_range b'A' b'F' c
    then some (c - b'A' + 10)
    else none

abbrev hex_pair : Option ℕ → Option ℕ → Option Bytes → Option Bytes
hex_pair (some h) (some l) (some bs) = some ((h * 16 + l) ∷ bs)
hex_pair _ _ _ = none

-- `hex.DecodeString`; `none` is its error.
unfoldable pub hex_decode : Text → Option Bytes
unfolding hex_value
hex_decode [] = some []
hex_decode (c ∷ []) = none
hex_decode (c ∷ d ∷ s) = hex_pair (hex_value c) (hex_value d) (hex_decode s)

abbrev pub IsByte : ℕ → Type 0
IsByte b = b < 256

hex_value-hex_digit : (d : ℕ) → d < 16 → hex_value (hex_digit d) ≡ some d
unfolding hex_value hex_digit
hex_value-hex_digit d h = ground arith

-- Bytes printed in hexadecimal are read back.
pub hex_decode-hex_encode : (bs : Bytes) → All IsByte bs → hex_decode (hex_encode bs) ≡ some bs
unfolding hex_decode hex_encode
hex_decode-hex_encode [] h = refl
hex_decode-hex_encode (b ∷ bs) h = ground (
  arith,
  hex_value-hex_digit (b / 16),
  hex_value-hex_digit (b % 16),
  hex_decode-hex_encode bs h.1,
)

-- The characters that `hex_encode` writes: the class `[a-f0-9]`.
unfoldable pub is_hex : ℕ → Bool
unfolding is_digit
is_hex c = is_digit c || in_range b'a' b'f' c

abbrev pub IsHex : ℕ → Type 0
IsHex c = is_hex c ≡ true

hex_digit-IsHex : (d : ℕ) → d < 16 → IsHex (hex_digit d)
unfolding is_hex hex_digit
hex_digit-IsHex d h = ground arith

pub hex_encode-IsHex : (bs : Bytes) → All IsByte bs → All IsHex (hex_encode bs)
unfolding hex_encode
hex_encode-IsHex [] h = tt
hex_encode-IsHex (b ∷ bs) h = (
  hex_digit-IsHex (b / 16) (omega arith),
  (hex_digit-IsHex (b % 16) (omega arith), hex_encode-IsHex bs h.1),
)

-- A base64 alphabet is its two last characters; `none` for the padding writes none.
pub record Alphabet : Type 0 where
  pub char_62 : ℕ
  pub char_63 : ℕ
  pub padding : Text

-- `base64.StdEncoding`
unfoldable pub std_base64 : Alphabet
std_base64 = record { char_62 = b'+'; char_63 = b'/'; padding = b'=' ∷ [] }

-- `base64.RawURLEncoding`
unfoldable pub raw_url_base64 : Alphabet
raw_url_base64 = record { char_62 = b'-'; char_63 = b'_'; padding = [] }

sextet : Alphabet → ℕ → ℕ
sextet a v =
    if ltb v 26
    then b'A' + v
    else if ltb v 52
    then b'a' + (v - 26)
    else if ltb v 62
    then b'0' + (v - 52)
    else if eqb v 62
    then a.char_62
    else a.char_63

-- `EncodeToString`
unfoldable pub base64_encode : Alphabet → Bytes → Text
unfolding sextet
base64_encode a [] = []
base64_encode a (x ∷ []) = sextet a (x / 4) ∷ sextet a (x % 4 * 16) ∷ (a.padding ++ a.padding)
base64_encode a (x ∷ y ∷ []) =
    sextet a (x / 4) ∷ sextet a (x % 4 * 16 + y / 16) ∷ sextet a (y % 16 * 4) ∷ a.padding
base64_encode a (x ∷ y ∷ z ∷ bs) =
    sextet a (x / 4)
    ∷ sextet a (x % 4 * 16 + y / 16)
    ∷ sextet a (y % 16 * 4 + z / 64)
    ∷ sextet a (z % 64)
    ∷ base64_encode a bs

upper_hex : ℕ → ℕ
upper_hex d = if ltb d 10 then b'0' + d else b'A' + (d - 10)

percent : ℕ → Text
unfolding upper_hex
percent b = b'%' ∷ upper_hex (b / 16) ∷ upper_hex (b % 16) ∷ []

is_unreserved : ℕ → Bool
unfolding is_lower is_upper is_digit
is_unreserved b =
    is_lower b || is_upper b || is_digit b || eqb b b'-' || eqb b b'_' || eqb b b'.' || eqb b b'~'

escape_bytes : (ℕ → Text) → Bytes → Text
escape_bytes f [] = []
escape_bytes f (b ∷ bs) = f b ++ escape_bytes f bs

path_byte : ℕ → Text
unfolding is_unreserved percent
path_byte b =
    if is_unreserved b
      || eqb b b'$'
      || eqb b b'&'
      || eqb b b'+'
      || eqb b b'='
      || eqb b b':'
      || eqb b b'@'
    then b ∷ []
    else percent b

query_byte : ℕ → Text
unfolding is_unreserved percent
query_byte b = if is_unreserved b then b ∷ [] else if eqb b 32 then b'+' ∷ [] else percent b

-- `url.PathEscape`
unfoldable pub path_escape : Text → Text
unfolding escape_bytes path_byte
path_escape s = escape_bytes path_byte (utf8 s)

-- `url.QueryEscape`
unfoldable pub query_escape : Text → Text
unfolding escape_bytes query_byte
query_escape s = escape_bytes query_byte (utf8 s)
