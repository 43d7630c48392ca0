-- ===== src/Singbox/Users.antt =====
-- Who may use an inbound: the users and the AmneziaWG peers of internal/singbox/generator.go.
use uncut_core.Base.{
  if◌then◌else◌, contains, ℕ, Bool, not, ◌&&◌, ◌||◌, Option, none, some, List, [], ◌∷◌,
}
use uncut_core.Text.{Text, codes, text_eq, is_blank}
use uncut_core.Text.Decimal.{pos}
use uncut_core.Config.{ClientAwg, Client, Settings, awg_params}
use uncut_core.Config.Ports.{awg_port_of}
use uncut_core.Config.Protocols.{amneziawg, effective_protocols}
use uncut_core.Json.{Json, str, num, array, object}

-- The test of `allowedUsers`.
unfoldable pub is_allowed : Client → List Text → Text → Bool
is_allowed c server proto = not (is_blank c.uuid) && contains (effective_protocols c server) proto

unfoldable pub allowed_users : List Client → List Text → Text → (Client → Json) → List Json
unfolding is_allowed
allowed_users [] server proto user = []
allowed_users (c ∷ cs) server proto user =
    let rest = allowed_users cs server proto user in
    if is_allowed c server proto then user c ∷ rest else rest

unfoldable pub vless_user : Client → Json
vless_user c = object ((codes "uuid", str c.uuid) ∷ [])

unfoldable pub reality_user : Client → Json
reality_user c =
    object ((codes "uuid", str c.uuid) ∷ (codes "flow", str (codes "xtls-rprx-vision")) ∷ [])

-- `cmp.Or(c.Password, c.UUID)`
unfoldable pub hysteria2_user : Client → Json
hysteria2_user c =
    object ((codes "password", str (if is_blank c.password then c.uuid else c.password)) ∷ [])

-- The material of a client that the first test of the loop over the peers lets through.
abbrev peer_keys : Client → Option ClientAwg
peer_keys c = elim c.awg [
  | none ↦ none
  | some a ↦ if is_blank c.uuid || is_blank a.pub_key || is_blank a.ip then none else some a
]

unfoldable pub peer : ClientAwg → Json
peer a = object (
    (codes "public_key", str a.pub_key)
    ∷ (codes "allowed_ips", array (str a.ip ∷ []))
    ∷ (codes "pre_shared_key", str a.psk)
    ∷ [])

unfoldable pub peer_of : Settings → Client → Option Json
unfolding peer
peer_of s c = elim (peer_keys c) [
  | none ↦ none
  | some a ↦ if contains (effective_protocols c s.protocols) amneziawg then some (peer a) else none
]

abbrev pub add_peer : Option Json → List Json → List Json
add_peer none rest = rest
add_peer (some j) rest = j ∷ rest

unfoldable pub peers : Settings → List Client → List Json
unfolding peer_of
peers s [] = []
peers s (c ∷ cs) = add_peer (peer_of s c) (peers s cs)

abbrev number : ℕ → Json
number n = num (pos n)

unfoldable pub amneziawg_endpoint : Settings → List Client → Json
unfolding awg_params
amneziawg_endpoint s cs = object (
    (codes "type", str (codes "wireguard"))
    ∷ (codes "tag", str (codes "amneziawg-in"))
    ∷ (codes "listen_port", num (awg_port_of s))
    ∷ (codes "address", array (str awg_params.server_addr ∷ []))
    ∷ (codes "mtu", number awg_params.mtu)
    ∷ (codes "private_key", str s.awg_priv_key)
    ∷ (codes "peers", array (peers s cs))
    ∷ (
      codes "amnezia",
      object (
          (codes "header_protection_key", str s.awg_header_key)
          ∷ (codes "content_padding_addition", str awg_params.padding)
          ∷ (codes "jc", number awg_params.jc)
          ∷ (codes "jmin", number awg_params.jmin)
          ∷ (codes "jmax", number awg_params.jmax)
          ∷ (codes "s1", number awg_params.s1)
          ∷ (codes "s2", number awg_params.s2)
          ∷ (codes "s3", number awg_params.s3)
          ∷ (codes "s4", number awg_params.s4)
          ∷ (codes "h1", number awg_params.h1)
          ∷ (codes "h2", number awg_params.h2)
          ∷ (codes "h3", number awg_params.h3)
          ∷ (codes "h4", number awg_params.h4)
          ∷ []),
    )
    ∷ [])
