-- ===== src/Config/Protocols/Cleaning.antt =====
-- What the cleaning of internal/config/config.go returns.
use uncut_core.Base.{
  All, All-append, contains, contains-append, All-contains, Distinct, Distinct-snoc,
  Distinct-middle, ok, err, ◌≡◌, refl, Bool, true, false, not, ◌&&◌, ◌||◌, List, [], ◌∷◌, ◌++◌, map,
  append-nil, append_assoc, arith,
}
use uncut_core.Text.{Text, Text-discrete, text_eq, is_blank, is_space}
use uncut_core.Text.Trim.{trim_space, NoSpace, trim_space_id}
use uncut_core.Config.Protocols.{
  xhttp_stealth, vless_ws, vless_httpupgrade, vless_grpc, vless_reality, hysteria2, amneziawg,
  default_protocols, is_valid_protocol, clean_from, clean_protocols,
}

abbrev pub IsKnown : Text → Type 0
IsKnown p = is_valid_protocol p ≡ true

-- `p` is one of the entries once trimmed, and not the empty text.
abbrev pub names : List Text → Text → Bool
names raw p = contains (map trim_space raw) p && not (is_blank p)

clean_from_members :
    (out raw : List Text) {ps : List Text} (p : Text)
    → clean_from out raw ≡ ok ps
    → contains ps p ≡ (contains out p || names raw p)
unfolding clean_from
clean_from_members out [] p h = ground arith
clean_from_members out (r ∷ raw) {ps} p h = ground (
  arith,
  clean_from_members out raw {ps = ps} p,
  clean_from_members (out ++ trim_space r ∷ []) raw {ps = ps} p,
  contains-append out (trim_space r ∷ []) p,
)

clean_from-Distinct :
    (out raw : List Text) {ps : List Text} → Distinct out → clean_from out raw ≡ ok ps → Distinct ps
unfolding clean_from
clean_from-Distinct out [] d h = ground arith
clean_from-Distinct out (r ∷ raw) {ps} d h = ground (
  arith,
  clean_from-Distinct out raw {ps = ps},
  clean_from-Distinct (out ++ trim_space r ∷ []) raw {ps = ps},
  Distinct-snoc out (trim_space r),
)

clean_from-IsKnown :
    (out raw : List Text) {ps : List Text}
    → All IsKnown out
    → clean_from out raw ≡ ok ps
    → All IsKnown ps
unfolding clean_from
clean_from-IsKnown out [] a h = ground arith
clean_from-IsKnown out (r ∷ raw) {ps} a h = ground (
  arith,
  clean_from-IsKnown out raw {ps = ps},
  clean_from-IsKnown (out ++ trim_space r ∷ []) raw {ps = ps},
  All-append IsKnown out (trim_space r ∷ []),
)

-- A cleaning that returns a list gives known names, none twice, and a name is there exactly when
-- it is not blank and an entry trims to it.
pub clean_protocols_sound :
    (raw : List Text) {ps : List Text}
    → clean_protocols raw ≡ ok ps
    → All IsKnown ps × Distinct ps × ((p : Text) → contains ps p ≡ names raw p)
unfolding clean_protocols
clean_protocols_sound raw h = (
  clean_from-IsKnown [] raw tt h,
  clean_from-Distinct [] raw tt h,
  λ p. clean_from_members [] raw p h,
)

default-NoSpace : All NoSpace default_protocols
unfolding default_protocols xhttp_stealth vless_ws vless_httpupgrade vless_grpc vless_reality
    hysteria2 amneziawg is_space
default-NoSpace = (refl, (refl, (refl, (refl, (refl, (refl, (refl, tt)))))))

pub known-trim_space : (p : Text) → IsKnown p → trim_space p ≡ p
unfolding is_valid_protocol
known-trim_space p h = trim_space_id p (All-contains NoSpace default_protocols p default-NoSpace h)

pub blank-unknown : is_valid_protocol [] ≡ false
unfolding is_valid_protocol default_protocols xhttp_stealth vless_ws vless_httpupgrade vless_grpc
    vless_reality hysteria2 amneziawg Text-discrete
blank-unknown = refl

pub known-not_blank : (p : Text) → IsKnown p → is_blank p ≡ false
known-not_blank [] h = cc (blank-unknown)
known-not_blank (c ∷ p) h = refl

clean_from_known :
    (out ps : List Text)
    → All IsKnown ps
    → Distinct (out ++ ps)
    → clean_from out ps ≡ ok (out ++ ps)
unfolding clean_from
clean_from_known out [] k d = rw append-nil
clean_from_known out (p ∷ ps) k d = ground (
  arith,
  known-trim_space p k.0,
  known-not_blank p k.0,
  Distinct-middle out ps p d,
  clean_from_known (out ++ p ∷ []) ps k.1 (rw append_assoc d),
  append_assoc out (p ∷ []) ps,
)

-- A list of known names, none twice, is clean already.
pub clean_protocols_id :
    (ps : List Text) → All IsKnown ps → Distinct ps → clean_protocols ps ≡ ok ps
unfolding clean_protocols
clean_protocols_id ps k d = clean_from_known [] ps k d

-- The error of cleaning is an entry, trimmed, that is no known name and not blank.
clean_from_err :
    (out raw : List Text) {p : Text}
    → clean_from out raw ≡ err p
    → (names raw p ≡ true) × (is_valid_protocol p ≡ false)
unfolding clean_from
clean_from_err out [] h = cc
clean_from_err out (r ∷ raw) {p} h =
    ground
      (arith, clean_from_err out raw {p = p}, clean_from_err (out ++ trim_space r ∷ []) raw {p = p})

-- The name in the error of a cleaning is not blank, is an entry once trimmed, and is no known
-- protocol.
pub clean_protocols_err :
    (raw : List Text) {p : Text}
    → clean_protocols raw ≡ err p
    → (names raw p ≡ true) × (is_valid_protocol p ≡ false)
unfolding clean_protocols
clean_protocols_err raw h = clean_from_err [] raw h
