-- ===== src/Text/Base64.antt =====
-- `base64.StdEncoding.DecodeString`, which passes over line ends and wants its padding.
use uncut_core.Base.{
  eqb, if◌then◌else◌, ℕ, ◌+◌, ◌-◌, ◌*◌, ◌/◌, ◌%◌, Bool, ◌||◌, Option, none, some, [], ◌∷◌,
}
use uncut_core.Text.{Text, is_lower, is_upper, is_digit}
use uncut_core.Text.Encode.{Bytes}

unfoldable pub sextet_of : ℕ → Option ℕ
unfolding is_lower is_upper is_digit
sextet_of c =
    if is_upper c
    then some (c - b'A')
    else if is_lower c
    then some (c - b'a' + 26)
    else if is_digit c
    then some (c - b'0' + 52)
    else if eqb c b'+'
    then some 62
    else if eqb c b'/'
    then some 63
    else none

abbrev is_pad : ℕ → Bool
is_pad c = eqb c b'='

abbrev byte_1 : ℕ → ℕ → ℕ
byte_1 v w = v * 4 + w / 16

abbrev byte_2 : ℕ → ℕ → ℕ
byte_2 w x = w % 16 * 16 + x / 4

abbrev byte_3 : ℕ → ℕ → ℕ
byte_3 x y = x % 4 * 64 + y

abbrev one_byte : Option ℕ → Option ℕ → Option Bytes
one_byte (some v) (some w) = some (byte_1 v w ∷ [])
one_byte v w = none

abbrev two_bytes : Option ℕ → Option ℕ → Option ℕ → Option Bytes
two_bytes (some v) (some w) (some x) = some (byte_1 v w ∷ byte_2 w x ∷ [])
two_bytes v w x = none

abbrev three_bytes : Option ℕ → Option ℕ → Option ℕ → Option ℕ → Option Bytes → Option Bytes
three_bytes (some v) (some w) (some x) (some y) (some rest) =
    some (byte_1 v w ∷ byte_2 w x ∷ byte_3 x y ∷ rest)
three_bytes v w x y rest = none

-- A padded group is the last one.
abbrev padded : ℕ → ℕ → ℕ → ℕ → Text → Option Bytes
padded a b c d (e ∷ rest) = none
padded a b c d [] =
    if is_pad c
    then (if is_pad d then one_byte (sextet_of a) (sextet_of b) else none)
    else two_bytes (sextet_of a) (sextet_of b) (sextet_of c)

unfoldable pub decode_groups : Text → Option Bytes
decode_groups [] = some []
decode_groups (a ∷ []) = none
decode_groups (a ∷ b ∷ []) = none
decode_groups (a ∷ b ∷ c ∷ []) = none
decode_groups (a ∷ b ∷ c ∷ d ∷ rest) =
    let others = decode_groups rest in
    if is_pad c || is_pad d
    then padded a b c d rest
    else three_bytes (sextet_of a) (sextet_of b) (sextet_of c) (sextet_of d) others

unfoldable pub without_line_ends : Text → Text
without_line_ends [] = []
without_line_ends (c ∷ s) =
    let rest = without_line_ends s in if eqb c 10 || eqb c 13 then rest else c ∷ rest

unfoldable pub base64_decode : Text → Option Bytes
base64_decode s = decode_groups (without_line_ends s)
