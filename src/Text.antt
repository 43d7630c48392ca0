-- ===== src/Text.antt =====
-- Go's strings, as the lists of their code points (valid UTF-8), with what the program uses of the
-- packages `strings`, `strconv`, `encoding` and `net/url`. `ToLower` acts on ASCII letters.
pub mod Trim
pub mod Split
pub mod Decimal
pub mod Encode
pub mod Search
pub mod Query
pub mod Base64
use Prim.Native.Char.{code}
use Prim.Native.String.{String}
use uncut_core.Base.{
  leb, eqb, if◌then◌else◌, Eq, ℕ, ◌+◌, Bool, true, false, ◌&&◌, ◌||◌, List, [], ◌∷◌, map,
  ℕ_discrete,
}

abbrev pub Text : Type 0
Text = List ℕ

-- The code points of a literal.
abbrev pub codes : String → Text
codes String.[] = []
codes (String.◌∷◌ c s) = code c ∷ codes s

unfoldable pub Text-discrete : Discrete Text
unfolding ℕ_discrete
Text-discrete = hlevel ℕ_discrete

instance abbrev pub text_eq : Eq Text
text_eq = record { dec = Text-discrete }

-- `s == ""`
abbrev pub is_blank : Text → Bool
is_blank [] = true
is_blank (c ∷ s) = false

-- Every code point passes the test.
abbrev pub every : (ℕ → Bool) → Text → Bool
every f [] = true
every f (c ∷ s) = f c && every f s

abbrev pub in_range : ℕ → ℕ → ℕ → Bool
in_range lo hi c = leb lo c && leb c hi

unfoldable pub is_lower : ℕ → Bool
is_lower c = in_range b'a' b'z' c

unfoldable pub is_upper : ℕ → Bool
is_upper c = in_range b'A' b'Z' c

unfoldable pub is_digit : ℕ → Bool
is_digit c = in_range b'0' b'9' c

-- `unicode.IsSpace`
unfoldable pub is_space : ℕ → Bool
is_space c =
    in_range 9 13 c
    || eqb c 32
    || eqb c 0x85
    || eqb c 0xa0
    || eqb c 0x1680
    || in_range 0x2000 0x200a c
    || in_range 0x2028 0x2029 c
    || eqb c 0x202f
    || eqb c 0x205f
    || eqb c 0x3000

unfoldable pub lower_code : ℕ → ℕ
unfolding is_upper
lower_code c = if is_upper c then c + 32 else c

-- `strings.ToLower`
unfoldable pub to_lower : Text → Text
unfolding lower_code
to_lower = map lower_code
