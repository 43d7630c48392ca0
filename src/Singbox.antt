-- ===== src/Singbox.antt =====
-- internal/singbox/generator.go: the configuration of sing-box, as the JSON value that is marshalled.
-- An object keeps its keys in the order of the source; the marshaller sorts them.
pub mod Users
pub mod Inbounds
pub mod Access
pub mod Rosters
use uncut_core.Base.{
  if◌then◌else◌, contains, Bool, true, not, ◌&&◌, none, some, List, [], ◌∷◌, ◌++◌,
}
use uncut_core.Text.{Text, codes, text_eq, is_blank}
use uncut_core.Config.{Client, Settings}
use uncut_core.Config.Protocols.{amneziawg, resolve_protocols}
use uncut_core.Json.{Json, str, bool, array, object}
use uncut_core.Singbox.Users.{amneziawg_endpoint}
use uncut_core.Singbox.Inbounds.{mtproxy_inbound, generate_inbound}

-- `exists` says which files there are.
inbounds_of : (Text → Bool) → Settings → List Client → List Text → List Json
inbounds_of exists s cs [] = []
inbounds_of exists s cs (p ∷ ps) =
    let rest = inbounds_of exists s cs ps in
    elim (generate_inbound exists p s cs) [ none ↦ rest | some j ↦ j ∷ rest ]

-- The FakeTLS branch, if it is on.
mtproxy_inbounds : Settings → List Json
mtproxy_inbounds s =
    if not (is_blank s.mtproto_tls_domain) && not (is_blank s.mtproto_raw_secret)
    then mtproxy_inbound s ∷ []
    else []

direct : Json
direct = object ((codes "type", str (codes "direct")) ∷ (codes "tag", str (codes "direct")) ∷ [])

awg_fields : Settings → List Client → List (Text × Json)
awg_fields s cs =
    (codes "endpoints", array (amneziawg_endpoint s cs ∷ []))
    ∷ (
      codes "route",
      object (
          (
            codes "rules",
            array (
                object (
                  (codes "inbound", str (codes "amneziawg-in"))
                  ∷ (codes "outbound", str (codes "direct"))
                  ∷ [])
                ∷ []),
          )
          ∷ []),
    )
    ∷ []

unfoldable pub generate_config : (Text → Bool) → Settings → List Client → Json
unfolding inbounds_of mtproxy_inbounds direct awg_fields
generate_config exists s cs =
    let protos = resolve_protocols s.protocols in
    object (
      (
        codes "log",
        object ((codes "level", str (codes "info")) ∷ (codes "timestamp", bool true) ∷ []),
      )
      ∷ (codes "inbounds", array (inbounds_of exists s cs protos ++ mtproxy_inbounds s))
      ∷ (codes "outbounds", array (direct ∷ []))
      ∷ (if contains protos amneziawg then awg_fields s cs else []))
