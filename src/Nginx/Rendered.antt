-- ===== src/Nginx/Rendered.antt =====
-- internal/nginx/generator.go: the entries of the map in the text of the stream configuration.
use uncut_core.Base.{
  ℕ, ◌≡◌, refl, ap, ◌∙◌, true, false, List, [], ◌∷◌, ◌++◌, append-nil, append_assoc, arith,
}
use uncut_core.Text.{Text, codes, is_blank, every}
use uncut_core.Text.Decimal.{digits, print}
use uncut_core.Config.Ports.{ports}
use uncut_core.Nginx.{route_line, route_lines, stream_head, stream_tail}
use uncut_core.Nginx.Reading.{
  emit, scan, tokens, after_map, opens_mark, read_entries, entries_of, is_host_code, glue,
  scan-host, loopback,
}

abbrev Reads : Text → List Text → Type 0
Reads x ts = scan false x ([], []) ≡ ([], ts)

abbrev pub behind : ℕ → Text
behind port = codes " 127.0.0.1:" ++ (print port ++ codes ";\n")

-- What stands behind a name is read as the address and a semicolon.
abbrev pub Ends : ℕ → Type 0
Ends port =
    (x : Text) (ts : List Text)
    → Reads x ts
    → Reads (behind port ++ x) (loopback port ∷ codes ";" ∷ ts)

pub reality-Ends : Ends ports.reality
unfolding ports print digits
reality-Ends x ts e = rw e refl

pub tls-Ends : Ends ports.mtproto_tls
unfolding ports print digits
tls-Ends x ts e = rw e refl

https-Ends : Ends ports.https_backend
unfolding ports print digits
https-Ends x ts e = rw e refl

pub record IsRoute (name : Text) (port : ℕ) : Type 0 where
  pub host : every is_host_code name ≡ true
  pub not_blank : is_blank name ≡ false
  pub ends : Ends port

emit-name :
    (name : Text) (ts : List Text) → is_blank name ≡ false → emit (name ++ []) ts ≡ name ∷ ts
emit-name [] ts h = cc
emit-name (c ∷ name) ts h = ap (λ w. (c ∷ w) ∷ ts) (append-nil name)

route_line-Reads :
    (name : Text) (port : ℕ) (x : Text) (ts : List Text)
    → IsRoute name port
    → Reads x ts
    → Reads (route_line name port ++ x) (name ∷ loopback port ∷ codes ";" ∷ ts)
unfolding route_line
route_line-Reads name port x ts r e =
    let words = loopback port ∷ codes ";" ∷ ts in
    let whole : scan false ((name ++ behind port) ++ x) ([], []) ≡ (name ++ [], words) =
      ap (λ t. scan false t ([], [])) (append_assoc name (behind port) x)
      ∙ scan-host name (behind port ++ x) ([], []) r.host
      ∙ ap (glue name) (r.ends x ts e) in
    rw whole (ap (λ l. ([], l)) (emit-name name words r.not_blank))

abbrev pub AllRoutes : List (Text × ℕ) → Type 0
AllRoutes [] = Unit
AllRoutes ((name, port) ∷ rs) = IsRoute name port × AllRoutes rs

abbrev words_of : List (Text × ℕ) → List Text → List Text
words_of [] ts = codes "default" ∷ loopback ports.https_backend ∷ codes ";" ∷ ts
words_of ((name, port) ∷ rs) ts = name ∷ loopback port ∷ codes ";" ∷ words_of rs ts

default-IsRoute : IsRoute (codes "default") ports.https_backend
default-IsRoute = record { host = refl; not_blank = refl; ends = https-Ends }

route_lines-Reads :
    (rs : List (Text × ℕ)) (x : Text) (ts : List Text)
    → AllRoutes rs
    → Reads x ts
    → Reads (route_lines rs ++ x) (words_of rs ts)
unfolding route_lines
route_lines-Reads [] x ts all e =
    route_line-Reads (codes "default") ports.https_backend x ts default-IsRoute e
route_lines-Reads ((name, port) ∷ rs) x ts (r, all) e =
    ap (λ t. scan false t ([], [])) (append_assoc (route_line name port) (route_lines rs) x)
    ∙ route_line-Reads name port (route_lines rs ++ x) (words_of rs ts) r
        (route_lines-Reads rs x ts all e)

-- What is left behind the entries of the map.
abbrev tail_words : List Text
tail_words = (scan false stream_tail ([], [])).1

tail-Reads : Reads stream_tail tail_words
tail-Reads = refl

head-Reads : (x : Text) (ts : List Text) → Reads x ts → after_map (tokens (stream_head ++ x)) ≡ ts
head-Reads x ts e = rw e refl

abbrev pub shown : List (Text × ℕ) → List (Text × Text)
shown [] = (codes "default", loopback ports.https_backend) ∷ []
shown ((name, port) ∷ rs) = (name, loopback port) ∷ shown rs

opens_mark-host :
    (name : Text) → every is_host_code name ≡ true → is_blank name ≡ false → opens_mark name ≡ false
opens_mark-host [] h n = refl
opens_mark-host (c ∷ name) h n = ground (arith, h)

read_entries-words :
    (rs : List (Text × ℕ)) → AllRoutes rs → read_entries (words_of rs tail_words) ≡ shown rs
read_entries-words [] all = refl
read_entries-words ((name, port) ∷ rs) (r, all) =
    rw (opens_mark-host name r.host r.not_blank)
      (ap (λ es. (name, loopback port) ∷ es) (read_entries-words rs all))

pub entries_of-text :
    (rs : List (Text × ℕ))
    → AllRoutes rs
    → entries_of (stream_head ++ (route_lines rs ++ stream_tail)) ≡ shown rs
entries_of-text rs all =
    ap read_entries (
      head-Reads (route_lines rs ++ stream_tail) (words_of rs tail_words)
        (route_lines-Reads rs stream_tail tail_words all tail-Reads))
    ∙ read_entries-words rs all
