-- ===== src/Transport.antt =====
-- internal/transport/transport.go: the random paths, the gRPC name and the reality SNI.

pub mod Laws
use uncut_core.Base.{
  eqb, if◌then◌else◌, ℕ, Bool, false, not, ◌||◌, Option, none, some, [], ◌∷◌, ◌++◌,
}
use uncut_core.Text.{Text, codes, is_lower, is_upper, is_digit}
use uncut_core.Text.Encode.{Bytes, utf8, hex_encode}
use uncut_core.Text.Search.{cut, replace_all}
use uncut_core.Text.Split.{join}

unfoldable pub hash_token : Text
hash_token = codes "{hash}"

unfoldable pub default_reality_sni : Text
default_reality_sni = codes "www.samsung.com"

unfoldable pub sub_hash_pattern : Text
sub_hash_pattern = codes "[a-f0-9]{32}"

pub record Transport : Type 0 where
  pub grpc : Text
  pub xhttp : Text
  pub ws : Text
  pub upgrade : Text
  pub sub : Text
  pub reality_server_name : Text

-- The five texts that `rand.Text` returns, in the order of the calls.
pub record RandomPaths : Type 0 where
  pub grpc : Text
  pub xhttp : Text
  pub ws : Text
  pub upgrade : Text
  pub sub : Text

unfoldable pub generate : RandomPaths → Transport
unfolding default_reality_sni hash_token
generate r = record {
  grpc = r.grpc;
  xhttp = b'/' ∷ r.xhttp;
  ws = b'/' ∷ r.ws;
  upgrade = b'/' ∷ r.upgrade;
  sub = b'/' ∷ (r.sub ++ (b'/' ∷ (hash_token ++ codes ".bin")));
  reality_server_name = default_reality_sni;
}

unfoldable pub is_safe : ℕ → Bool
unfolding is_lower is_upper is_digit
is_safe c = is_lower c || is_upper c || is_digit c || eqb c b'-' || eqb c b'_' || eqb c b'.'

-- Keeps stray characters in a hash out of nginx directives.
unfoldable pub safe : Text → Text
unfolding is_safe
safe [] = []
safe (c ∷ s) = let rest = safe s in if is_safe c then c ∷ rest else rest

unfoldable pub sub_path : Transport → Text → Text
sub_path t hash = replace_all hash_token (safe hash) t.sub

unfoldable pub sub_url : Transport → Text → Text → Text
sub_url t domain hash = codes "https://" ++ (domain ++ sub_path t hash)

-- The characters that `regexp.QuoteMeta` escapes.
is_meta : ℕ → Bool
is_meta c =
    eqb c b'\\'
    || eqb c b'.'
    || eqb c b'+'
    || eqb c b'*'
    || eqb c b'?'
    || eqb c b'('
    || eqb c b')'
    || eqb c b'|'
    || eqb c b'['
    || eqb c b']'
    || eqb c b'{'
    || eqb c b'}'
    || eqb c b'^'
    || eqb c b'$'

unfoldable pub quote_meta : Text → Text
unfolding is_meta
quote_meta [] = []
quote_meta (c ∷ s) = if is_meta c then b'\\' ∷ c ∷ quote_meta s else c ∷ quote_meta s

abbrev location_of : Text → Option (Text × Text) → Text
location_of sub none = b'^' ∷ (quote_meta sub ++ codes "$")
location_of sub (some (prefix, suffix)) =
    b'^'
    ∷ (quote_meta prefix
        ++ (codes "(" ++ (sub_hash_pattern ++ (codes ")" ++ (quote_meta suffix ++ codes "$")))))

unfoldable pub sub_location : Transport → Text
sub_location t = location_of t.sub (cut hash_token t.sub)

-- `strings.Cut` gives the whole text where the separator is not found.
abbrev before_token : Text → Option (Text × Text) → Text
before_token sub none = sub
before_token sub (some (prefix, suffix)) = prefix

-- `strings.TrimSuffix(s, "/")`
unfoldable pub trim_slash : Text → Text
trim_slash [] = []
trim_slash (c ∷ []) = if eqb c b'/' then [] else c ∷ []
trim_slash (c ∷ d ∷ s) = c ∷ trim_slash (d ∷ s)

unfoldable pub doh_path : Transport → Text
unfolding trim_slash
doh_path t = trim_slash (before_token t.sub (cut hash_token t.sub)) ++ codes "/dns-query"

-- The first eight hexadecimal digits of the SHA-256 of the fields that client links carry.
module _ (sha256 : Bytes → Bytes) where
  abbrev first_eight : Text → Text
  first_eight (a ∷ b ∷ c ∷ d ∷ e ∷ f ∷ g ∷ h ∷ s) = a ∷ b ∷ c ∷ d ∷ e ∷ f ∷ g ∷ h ∷ []
  first_eight s = s

  unfoldable pub rev : Transport → Text
  rev t = first_eight (
      hex_encode (
        sha256 (
          utf8 (
            join (10 ∷ [])
              (t.xhttp ∷ t.ws ∷ t.upgrade ∷ t.sub ∷ t.grpc ∷ t.reality_server_name ∷ [])))))

-- The class `[\s;$"'\\]`; `\s` is the ASCII class of RE2.
unfoldable pub is_unsafe : ℕ → Bool
is_unsafe c =
    eqb c 9
    || eqb c 10
    || eqb c 12
    || eqb c 13
    || eqb c 32
    || eqb c b';'
    || eqb c b'$'
    || eqb c b'"'
    || eqb c 39
    || eqb c b'\\'

unfoldable pub has_unsafe : Text → Bool
unfolding is_unsafe
has_unsafe [] = false
has_unsafe (c ∷ s) = is_unsafe c || has_unsafe s

-- `Validate` on a transport that is not nil; true where it returns no error.
unfoldable pub is_valid : Transport → Bool
unfolding has_unsafe
is_valid t = not (has_unsafe t.reality_server_name)
