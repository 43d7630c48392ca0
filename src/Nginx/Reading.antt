-- ===== src/Nginx/Reading.antt =====
-- How nginx reads the stream configuration of internal/nginx/generator.go: its words, and the map of
-- the TLS names. This is a specification of the rendered text, and no code of the repository.
use uncut_core.Base.{
  eqb, if◌then◌else◌, ◌==◌, ℕ, ◌≡◌, refl, ap, ◌∙◌, Bool, true, false, not, ◌&&◌, ◌||◌, List, [],
  ◌∷◌, ◌++◌, arith,
}
use uncut_core.Text.{Text, codes, text_eq, every, in_range, to_lower}
use uncut_core.Text.Decimal.{print}
use uncut_core.Nginx.Backends.{same_text}

-- A space or the end of a line.
abbrev pub is_gap : ℕ → Bool
is_gap c = eqb c 32 || eqb c 10

abbrev pub is_mark : ℕ → Bool
is_mark c = eqb c b';' || eqb c b'{' || eqb c b'}'

-- A `#` begins a comment, and the end of the line ends it.
abbrev pub next_mode : Bool → ℕ → Bool
next_mode true c = not (eqb c 10)
next_mode false c = eqb c b'#'

abbrev pub emit : Text → List Text → List Text
emit [] ts = ts
emit (c ∷ w) ts = (c ∷ w) ∷ ts

-- What the character adds to the word that begins behind it, and the words after that.
abbrev pub add_char : Bool → ℕ → Text × List Text → Text × List Text
add_char true c (w, ts) = ([], emit w ts)
add_char false c (w, ts) =
    if is_gap c || eqb c b'#'
    then ([], emit w ts)
    else if is_mark c
    then ([], (c ∷ []) ∷ emit w ts)
    else (c ∷ w, ts)

abbrev pub scan : Bool → Text → Text × List Text → Text × List Text
scan m [] r = r
scan m (c ∷ t) r = add_char m c (scan (next_mode m c) t r)

abbrev pub emitted : Text × List Text → List Text
emitted (w, ts) = emit w ts

-- The words of a configuration; a semicolon and a brace each are one.
abbrev pub tokens : Text → List Text
tokens t = emitted (scan false t ([], []))

abbrev pub behind_three : List Text → List Text
behind_three (a ∷ b ∷ c ∷ ts) = ts
behind_three ts = []

-- Behind the brace of the first map.
abbrev pub after_map : List Text → List Text
after_map [] = []
after_map (t ∷ ts) =
    let rest = after_map ts in if same_text t (codes "map") then behind_three ts else rest

abbrev pub opens_mark : Text → Bool
opens_mark [] = false
opens_mark (c ∷ t) = is_mark c

-- The entries of a map up to its closing brace: a key and its value.
abbrev pub read_entries : List Text → List (Text × Text)
read_entries (k ∷ v ∷ e ∷ ts) =
    let rest = read_entries ts in if opens_mark k then [] else (k, v) ∷ rest
read_entries ts = []

-- The map of the TLS names in the text of a stream configuration.
abbrev pub entries_of : Text → List (Text × Text)
entries_of t = read_entries (after_map (tokens t))

-- The value of the first key that is the name, else `else_value`.
abbrev pub find_value : List (Text × Text) → Text → Text → Text
find_value [] name else_value = else_value
find_value ((k, v) ∷ es) name else_value =
    let rest = find_value es name else_value in if name == k then v else rest

-- Where a map sends a name: names are compared without regard to case, and `default` is no name.
abbrev pub answer : List (Text × Text) → Text → Text
answer es name =
    let fallback = find_value es (codes "default") [] in find_value es (to_lower name) fallback

abbrev pub is_host_code : ℕ → Bool
is_host_code c = in_range b'a' b'z' c || in_range b'0' b'9' c || eqb c b'-' || eqb c b'.'

-- Blank, or lower-case letters, digits, dashes and dots, and none of the two words that mean something
-- else in a map.
abbrev pub is_host : Text → Bool
is_host name =
    every is_host_code name && not (codes "default" == name) && not (codes "include" == name)

abbrev pub glue : Text → Text × List Text → Text × List Text
glue s (w, ts) = (s ++ w, ts)

add_char-host :
    (c : ℕ) (r : Text × List Text) → is_host_code c ≡ true → add_char false c r ≡ glue (c ∷ []) r
add_char-host c (w, ts) h = ground (arith, h)

next_mode-host : (c : ℕ) → is_host_code c ≡ true → next_mode false c ≡ false
next_mode-host c h = ground (arith, h)

pub scan-host :
    (s x : Text) (r : Text × List Text)
    → every is_host_code s ≡ true
    → scan false (s ++ x) r ≡ glue s (scan false x r)
scan-host [] x (w, ts) h = refl
scan-host (c ∷ s) x r h =
    let (head, tail) : (is_host_code c ≡ true) × (every is_host_code s ≡ true) =
      ground (arith, h) in
    ap (λ m. add_char false c (scan m (s ++ x) r)) (next_mode-host c head)
    ∙ ap (add_char false c) (scan-host s x r tail)
    ∙ add_char-host c (glue s (scan false x r)) head

-- The address that a map gives for a port.
abbrev pub loopback : ℕ → Text
loopback port = codes "127.0.0.1:" ++ print port
