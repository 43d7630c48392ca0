-- ===== src/Singbox/Inbounds.antt =====
-- The inbound of each protocol, of internal/singbox/generator.go.
use uncut_core.Base.{
  ltb, if◌then◌else◌, ◌==◌, ℕ, Bool, true, false, ◌&&◌, Option, none, some, List, [], ◌∷◌, ◌++◌,
}
use uncut_core.Text.{Text, codes, text_eq, is_blank}
use uncut_core.Text.Decimal.{pos, negsuc, atoi}
use uncut_core.Text.Trim.{trim_space}
use uncut_core.Transport.{Transport}
use uncut_core.Config.{Client, Settings}
use uncut_core.Config.Ports.{ports}
use uncut_core.Config.Protocols.{
  xhttp_stealth, vless_ws, vless_httpupgrade, vless_grpc, vless_reality, hysteria2,
}
use uncut_core.Links.{mtproto_fake_tls_secret}
use uncut_core.Json.{Json, str, num, bool, array, object}
use uncut_core.Singbox.Users.{allowed_users, vless_user, reality_user, hysteria2_user}

abbrev number : ℕ → Json
number n = num (pos n)

unfoldable pub mtproxy_inbound : Settings → Json
unfolding ports
mtproxy_inbound s = object (
    (codes "type", str (codes "mtproxy"))
    ∷ (codes "tag", str (codes "mtproxy-faketls"))
    ∷ (codes "listen", str (codes "127.0.0.1"))
    ∷ (codes "listen_port", number ports.mtproto_tls)
    ∷ (
      codes "users",
      array (
          object (
            (codes "name", str (codes "default"))
            ∷ (
              codes "secret",
              str (mtproto_fake_tls_secret s.mtproto_raw_secret s.mtproto_tls_domain),
            )
            ∷ [])
          ∷ []),
    )
    ∷ (codes "domain_fronting_port", number 443)
    ∷ [])

-- A vless inbound on a loopback port; the last fields are the protocol's own.
abbrev pub vless_inbound : Text → ℕ → List Json → List (Text × Json) → Json
vless_inbound tag port users own = object (
    (codes "type", str (codes "vless"))
    ∷ (codes "tag", str tag)
    ∷ (codes "listen", str (codes "127.0.0.1"))
    ∷ (codes "listen_port", number port)
    ∷ (codes "users", array users)
    ∷ own)

ws_transport : Transport → List (Text × Json)
ws_transport t =
    (
      codes "transport",
      object (
          (codes "type", str (codes "ws"))
          ∷ (codes "path", str t.ws)
          ∷ (codes "max_early_data", number 2048)
          ∷ (codes "early_data_header_name", str (codes "Sec-WebSocket-Protocol"))
          ∷ []),
    )
    ∷ []

xhttp_transport : Transport → List (Text × Json)
xhttp_transport t =
    (
      codes "transport",
      object (
          (codes "type", str (codes "xhttp"))
          ∷ (codes "path", str t.xhttp)
          ∷ (codes "mode", str (codes "packet-up"))
          ∷ (codes "x_padding_bytes", str (codes "100-2500"))
          ∷ (codes "no_sse_header", bool false)
          ∷ (codes "sc_max_each_post_bytes", number 1000000)
          ∷ (codes "sc_max_buffered_posts", number 30)
          ∷ (codes "trusted_x_forwarded_for", array (str (codes "X-Forwarded-For") ∷ []))
          ∷ []),
    )
    ∷ []

upgrade_transport : Transport → Text → List (Text × Json)
upgrade_transport t domain =
    (
      codes "transport",
      object (
          (codes "type", str (codes "httpupgrade"))
          ∷ (codes "path", str t.upgrade)
          ∷ (codes "host", str domain)
          ∷ []),
    )
    ∷ []

grpc_transport : Transport → List (Text × Json)
grpc_transport t =
    (
      codes "transport",
      object ((codes "type", str (codes "grpc")) ∷ (codes "service_name", str t.grpc) ∷ []),
    )
    ∷ []

reality_tls : Settings → List (Text × Json)
reality_tls s =
    (
      codes "tls",
      object (
          (codes "enabled", bool true)
          ∷ (codes "server_name", str s.reality_server_name)
          ∷ (
            codes "reality",
            object (
                (codes "enabled", bool true)
                ∷ (
                  codes "handshake",
                  object (
                      (codes "server", str s.reality_server_name)
                      ∷ (codes "server_port", number 443)
                      ∷ []),
                )
                ∷ (codes "private_key", str s.reality_priv_key)
                ∷ (
                  codes "short_id",
                  array (if is_blank s.reality_short_id then [] else str s.reality_short_id ∷ []),
                )
                ∷ (codes "max_time_difference", str (codes "5m"))
                ∷ []),
          )
          ∷ []),
    )
    ∷ []

-- `filepath.Join(installDir, "certs", "certificates", domain+ext)`, for a clean directory.
unfoldable pub cert_file : Settings → Text → Text
cert_file s ext =
    (if is_blank s.install_dir then codes "/opt/sing-box" else s.install_dir)
    ++ (codes "/certs/certificates/" ++ (s.domain ++ ext))

-- A bandwidth cap that is a positive number is a field.
cap_field : Text → Text → List (Text × Json)
cap_field key raw = elim (atoi (trim_space raw)) [
  | none ↦ []
  | some (negsuc n) ↦ []
  | some (pos n) ↦ if ltb 0 n then (key, number n) ∷ [] else []
]

unfoldable pub hysteria2_inbound : Settings → List Json → Json
unfolding cert_file cap_field
hysteria2_inbound s users = object (
    (codes "type", str (codes "hysteria2"))
    ∷ (codes "tag", str (codes "hysteria2"))
    ∷ (codes "listen", str (codes "0.0.0.0"))
    ∷ (codes "listen_port", number 443)
    ∷ (codes "users", array users)
    ∷ (
      codes "tls",
      object (
          (codes "enabled", bool true)
          ∷ (codes "certificate_path", str (cert_file s (codes ".crt")))
          ∷ (codes "key_path", str (cert_file s (codes ".key")))
          ∷ []),
    )
    ∷ (codes "bbr_profile", str (codes "aggressive"))
    ∷ (cap_field (codes "up_mbps") s.hysteria2_up_mbps
        ++ (cap_field (codes "down_mbps") s.hysteria2_down_mbps
            ++ (if is_blank s.hysteria2_obfs
                then []
                else (
                  codes "obfs",
                  object (
                      (codes "type", str (codes "salamander"))
                      ∷ (codes "password", str s.hysteria2_obfs)
                      ∷ []),
                )
                  ∷ []))))

-- `none` is the nil map: a protocol without an inbound here, or hysteria2 without a certificate.
unfoldable pub generate_inbound : (Text → Bool) → Text → Settings → List Client → Option Json
unfolding ports ws_transport xhttp_transport upgrade_transport grpc_transport reality_tls
    hysteria2_inbound
generate_inbound exists proto s cs =
    if proto == vless_ws
    then some (
        vless_inbound (codes "vless-ws") ports.ws (allowed_users cs s.protocols proto vless_user)
          (ws_transport s.transport))
    else if proto == xhttp_stealth
    then some (
        vless_inbound (codes "xhttp-stealth") ports.xhttp
          (allowed_users cs s.protocols proto vless_user) (xhttp_transport s.transport))
    else if proto == vless_httpupgrade
    then some (
        vless_inbound (codes "vless-httpupgrade") ports.upgrade
          (allowed_users cs s.protocols proto vless_user) (upgrade_transport s.transport s.domain))
    else if proto == vless_grpc
    then some (
        vless_inbound (codes "vless-grpc") ports.grpc
          (allowed_users cs s.protocols proto vless_user) (grpc_transport s.transport))
    else if proto == vless_reality
    then some (
        vless_inbound (codes "vless-reality") ports.reality
          (allowed_users cs s.protocols proto reality_user) (reality_tls s))
    else if proto == hysteria2
    then (if exists (cert_file s (codes ".crt")) && exists (cert_file s (codes ".key"))
        then some (hysteria2_inbound s (allowed_users cs s.protocols proto hysteria2_user))
        else none)
    else none
