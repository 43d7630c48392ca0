-- ===== src/Nginx/Laws.antt =====
-- internal/nginx/generator.go: where the stream configuration sends a name.
use uncut_core.Base.{
  if◌then◌else◌, Bool-cases, ◌==◌, Distinct, Result, ok, err, ℕ, ◌≡◌, refl, sym, ap, ◌∙◌, inl, inr,
  true, false, not, ◌&&◌, List, [], ◌∷◌, ◌++◌, map, arith,
}
use uncut_core.Text.{Text, codes, Text-discrete, text_eq, is_blank, every, to_lower}
use uncut_core.Text.Trim.{trim_space}
use uncut_core.Config.Ports.{ports}
use uncut_core.Nginx.{
  GeneratorOptions, NginxError, name_of, route_if, routes, route_lines, stream_head, stream_tail,
  generate_stream_config,
}
use uncut_core.Nginx.Reading.{entries_of, find_value, answer, is_host_code, is_host, loopback}
use uncut_core.Nginx.Rendered.{reality-Ends, tls-Ends, AllRoutes, shown, entries_of-text}

abbrev both : Text → Text → List (Text × ℕ)
both a b = route_if a ports.reality ++ route_if b ports.mtproto_tls

both-AllRoutes :
    (a b : Text) → every is_host_code a ≡ true → every is_host_code b ≡ true → AllRoutes (both a b)
both-AllRoutes [] [] p q = tt
both-AllRoutes [] (d ∷ b) p q = (record { host = q; not_blank = refl; ends = tls-Ends }, tt)
both-AllRoutes (c ∷ a) [] p q = (record { host = p; not_blank = refl; ends = reality-Ends }, tt)
both-AllRoutes (c ∷ a) (d ∷ b) p q = (
  record { host = p; not_blank = refl; ends = reality-Ends },
  (record { host = q; not_blank = refl; ends = tls-Ends }, tt),
)

abbrev pub keys_of : List (Text × Text) → List Text
keys_of es = map (λ (e : Text × Text). e.0) es

-- The names are hosts, and not the same one.
record Apart (a b : Text) : Type 0 where
  left : is_host a ≡ true
  right : is_host b ≡ true
  differ : (not (is_blank b) && (b == a)) ≡ false

both-Distinct : (a b : Text) → Apart a b → Distinct (keys_of (shown (both a b)))
both-Distinct [] [] p = (refl, tt)
both-Distinct [] (d ∷ b) p = (ground (arith, p.right), (refl, tt))
both-Distinct (c ∷ a) [] p = (ground (arith, p.left), (refl, tt))
both-Distinct (c ∷ a) (d ∷ b) p =
    (ground (arith, p.left, p.differ), (ground (arith, p.right), (refl, tt)))

blank-differs : (name : Text) → is_blank name ≡ false → (name == []) ≡ false
blank-differs name n = elim (Text-discrete name []) [
  | yes e ↦ ground (arith, n, ap is_blank e)
  | no ne ↦ ground (arith, ne)
]

abbrev text_or : Text → Result NginxError Text → Text
text_or d (ok text) = text
text_or d (err e) = d

text-eq :
    (a b : Text) {text : Text} {r : Result NginxError Text}
    → r ≡ ok text
    → r ≡ ok (stream_head ++ (route_lines (both a b) ++ stream_tail))
    → stream_head ++ (route_lines (both a b) ++ stream_tail) ≡ text
text-eq a b h e = ap (text_or []) (sym e ∙ h)

-- What the map is to say of a name in lower case.
abbrev target : Text → Text → Text → Text
target a b name =
    if name == a
    then loopback ports.reality
    else if name == b
    then loopback ports.mtproto_tls
    else loopback ports.https_backend

both-find :
    (a b name : Text)
    → Apart a b
    → is_blank name ≡ false
    → find_value (shown (both a b)) name (find_value (shown (both a b)) (codes "default") [])
      ≡ target a b name
both-find [] [] name p n = rw (blank-differs name n) (ground arith)
both-find [] (d ∷ b) name p n = rw (blank-differs name n) (ground (arith, p.right))
both-find (c ∷ a) [] name p n = rw (blank-differs name n) (ground (arith, p.left))
both-find (c ∷ a) (d ∷ b) name p n = ground (arith, p.left, p.right)

not_blank-lower : (name : Text) → is_blank name ≡ false → is_blank (to_lower name) ≡ false
unfolding to_lower
not_blank-lower [] n = n
not_blank-lower (c ∷ name) n = refl

-- Where the REALITY name and the FakeTLS domain, trimmed and in lower case, each are blank or made of
-- letters, digits, dashes and dots, and none of the words default and include: the map in a text that
-- is rendered, as nginx reads it, has no key twice; it sends the REALITY name in any case to the REALITY inbound, the
-- FakeTLS domain to its own, and every other name to the https server.
pub routes_lem :
    (opts : GeneratorOptions) {text : Text} (name : Text)
    → is_host (to_lower (trim_space opts.reality_server_name)) ≡ true
    → is_host (to_lower (trim_space opts.mtproto_tls_domain)) ≡ true
    → generate_stream_config opts ≡ ok text
    → is_blank name ≡ false
    → Distinct (keys_of (entries_of text))
      × (answer (entries_of text) name ≡ (
          if to_lower name == to_lower (trim_space opts.reality_server_name)
          then loopback ports.reality
          else if to_lower name == to_lower (trim_space opts.mtproto_tls_domain)
          then loopback ports.mtproto_tls
          else loopback ports.https_backend))
unfolding generate_stream_config routes name_of
routes_lem opts {text} name p q h n =
    let a = to_lower (trim_space opts.reality_server_name) in
    let b = to_lower (trim_space opts.mtproto_tls_domain) in
    elim (Bool-cases (not (is_blank b) && (b == a))) [
      | inl e ↦ ground (arith, e, h)
      | inr e ↦
          let apart : Apart a b = record { left = p; right = q; differ = e } in
          let same = text-eq a b (rw e at h) refl in
          let read : entries_of text ≡ shown (both a b) =
            ap entries_of (sym same)
            ∙ entries_of-text (both a b)
                (both-AllRoutes a b (ground (arith, p)) (ground (arith, q))) in
          rw read
            (both-Distinct a b apart, both-find a b (to_lower name) apart (not_blank-lower name n))
    ]
