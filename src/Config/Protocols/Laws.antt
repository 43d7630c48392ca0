-- ===== src/Config/Protocols/Laws.antt =====
-- What the protocol functions of internal/config/config.go return.
use uncut_core.Base.{
  All, contains, contains-append, Distinct, Distinct-snoc, Result, ok, err, Result-cases, ◌≡◌, refl,
  ◌⊎◌, inl, inr, Bool, false, not, ◌&&◌, ◌||◌, List, [], ◌∷◌, ◌++◌, map, arith,
}
use uncut_core.Text.{Text, Text-discrete, text_eq}
use uncut_core.Text.Trim.{trim_space}
use uncut_core.Config.{Client}
use uncut_core.Config.Protocols.{
  xhttp_stealth, vless_ws, vless_httpupgrade, vless_grpc, vless_reality, hysteria2, amneziawg,
  default_protocols, is_valid_protocol, clean_protocols, keep_known, or_default, resolve_protocols,
  cut_to, is_empty, wanted, effective_protocols,
}
use uncut_core.Config.Protocols.Cleaning.{
  IsKnown, clean_protocols_sound, blank-unknown, known-not_blank, clean_protocols_err,
}

keep_known-members :
    (raw : List Text) (p : Text)
    → contains (map trim_space (keep_known raw)) p
      ≡ (contains (map trim_space raw) p && is_valid_protocol p)
unfolding keep_known
keep_known-members [] p = refl
keep_known-members (r ∷ raw) p = ground (arith, keep_known-members raw p)

-- Cleaning what `keep_known` leaves does not fail.
clean-keep_known : (raw : List Text) → (ps : List Text) × (clean_protocols (keep_known raw) ≡ ok ps)
clean-keep_known raw = elim (Result-cases (clean_protocols (keep_known raw))) [
  | inl found ↦ found
  | inr (p, e) ↦
      absurd (ground (arith, clean_protocols_err (keep_known raw) e, keep_known-members raw p))
]

default-IsKnown : All IsKnown default_protocols
unfolding is_valid_protocol default_protocols xhttp_stealth vless_ws vless_httpupgrade vless_grpc
    vless_reality hysteria2 amneziawg Text-discrete
default-IsKnown = (refl, (refl, (refl, (refl, (refl, (refl, (refl, tt)))))))

default-Distinct : Distinct default_protocols
unfolding default_protocols xhttp_stealth vless_ws vless_httpupgrade vless_grpc vless_reality
    hysteria2 amneziawg Text-discrete
default-Distinct = (refl, (refl, (refl, (refl, (refl, (refl, (refl, tt)))))))

default-not_empty : is_empty default_protocols ≡ false
unfolding default_protocols
default-not_empty = refl

-- A set that a server can have: known names, none twice, one at least.
pub record IsServerSet (ps : List Text) : Type 0 where
  pub known : All IsKnown ps
  pub distinct : Distinct ps
  pub not_empty : is_empty ps ≡ false

or_default-IsServerSet :
    (r : Result Text (List Text)) (raw : List Text)
    → clean_protocols raw ≡ r
    → IsServerSet (or_default r)
or_default-IsServerSet (ok []) raw h = record {
  known = default-IsKnown;
  distinct = default-Distinct;
  not_empty = default-not_empty;
}
or_default-IsServerSet (ok (p ∷ ps)) raw h =
    let (known, distinct, _) = clean_protocols_sound raw h in
    record { known = known; distinct = distinct; not_empty = refl }
or_default-IsServerSet (err e) raw h = record {
  known = default-IsKnown;
  distinct = default-Distinct;
  not_empty = default-not_empty;
}

-- Whatever is stored, the server's active set is known names, none twice, and never empty.
pub resolve_protocols-IsServerSet : (raw : List Text) → IsServerSet (resolve_protocols raw)
unfolding resolve_protocols
resolve_protocols-IsServerSet raw =
    or_default-IsServerSet (clean_protocols (keep_known raw)) (keep_known raw) refl

or_default_members :
    (raw ps : List Text)
    → clean_protocols (keep_known raw) ≡ ok ps
    → ((p : Text)
        → contains (or_default (ok ps)) p
          ≡ (contains (map trim_space raw) p && is_valid_protocol p))
      ⊎ ((or_default (ok ps) ≡ default_protocols)
          × ((p : Text) → (contains (map trim_space raw) p && is_valid_protocol p) ≡ false))
or_default_members raw [] h =
    let (_, _, member) = clean_protocols_sound (keep_known raw) h in
    inr (refl, λ p. ground (arith, member p, keep_known-members raw p, blank-unknown))
or_default_members raw (q ∷ qs) h =
    let (_, _, member) = clean_protocols_sound (keep_known raw) h in
    inl (λ p. ground (arith, member p, keep_known-members raw p, known-not_blank p))

-- The active set is the stored names that are known; where there are none, the defaults.
pub resolve_protocols_members :
    (raw : List Text)
    → ((p : Text)
        → contains (resolve_protocols raw) p
          ≡ (contains (map trim_space raw) p && is_valid_protocol p))
      ⊎ ((resolve_protocols raw ≡ default_protocols)
          × ((p : Text) → (contains (map trim_space raw) p && is_valid_protocol p) ≡ false))
unfolding resolve_protocols
resolve_protocols_members raw =
    let (ps, e) = clean-keep_known raw in rw e (or_default_members raw ps e)

cut_to-members :
    (server out ps : List Text) (p : Text)
    → contains (cut_to server out ps) p ≡ (contains out p || (contains server p && contains ps p))
unfolding cut_to
cut_to-members server out [] p = ground arith
cut_to-members server out (q ∷ ps) p = ground (
  arith,
  cut_to-members server out ps p,
  cut_to-members server (out ++ q ∷ []) ps p,
  contains-append out (q ∷ []) p,
)

cut_to-Distinct : (server out ps : List Text) → Distinct out → Distinct (cut_to server out ps)
unfolding cut_to
cut_to-Distinct server out [] d = d
cut_to-Distinct server out (q ∷ ps) d = ground (
  arith,
  cut_to-Distinct server out ps d,
  cut_to-Distinct server (out ++ q ∷ []) ps,
  Distinct-snoc out q d,
)

-- The client has the server's set: it has no allowlist, or an empty one.
abbrev pub inherits : Client → Bool
inherits c = not c.protocols_explicit || is_empty c.protocols

-- A client has a protocol exactly if the server's active set has it and the client inherits or
-- lists it; and it has none twice.
pub effective_protocols_rule :
    (c : Client) (raw : List Text)
    → ((p : Text)
        → contains (effective_protocols c raw) p
          ≡ (contains (resolve_protocols raw) p && (inherits c || contains c.protocols p)))
      × Distinct (effective_protocols c raw)
unfolding effective_protocols wanted
effective_protocols_rule c raw =
    let server = resolve_protocols raw in
    (
      λ p. ground (
        arith,
        cut_to-members server [] (wanted c server) p,
        contains-append c.protocols server p,
      ),
      cut_to-Distinct server [] (wanted c server) tt,
    )
