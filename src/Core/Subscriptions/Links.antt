-- ===== src/Core/Subscriptions/Links.antt =====
-- The link of each protocol, of internal/core/subscriptions.go.
use uncut_core.Base.{
  leb, eqb, if◌then◌else◌, length, ℕ, Bool, not, ◌&&◌, ◌||◌, none, some, [], ◌∷◌, ◌++◌,
}
use uncut_core.Text.{Text, codes, is_blank, every, is_lower, is_upper, is_digit}
use uncut_core.Text.Decimal.{print, itoa}
use uncut_core.Text.Encode.{raw_url_base64, base64_encode, path_escape, query_escape}
use uncut_core.Text.Query.{encode_query}
use uncut_core.Text.Search.{contains_text, replace_all}
use uncut_core.Config.{ClientAwg, Client, Settings, awg_params}
use uncut_core.Config.Ports.{awg_port_of}

-- One to sixteen letters, digits, dashes or underscores.
unfoldable pub is_tag_code : ℕ → Bool
unfolding is_lower is_upper is_digit
is_tag_code c = is_lower c || is_upper c || is_digit c || eqb c b'-' || eqb c b'_'

unfoldable pub is_valid_tag : Text → Bool
unfolding is_tag_code
is_valid_tag s = not (is_blank s) && leb (length s) 16 && every is_tag_code s

unfoldable pub link_label : Text → Text → Text → Text
unfolding is_valid_tag
link_label name proto tag =
    let label = name ++ (b'-' ∷ proto) in if is_valid_tag tag then label ++ (b'-' ∷ tag) else label

unfoldable pub vless_reality_link : Client → Settings → Text
vless_reality_link c s =
    codes "vless://"
    ++ (c.uuid
        ++ (codes "@"
            ++ (s.domain
                ++ (codes ":443?type=tcp&encryption=none&security=reality&pbk="
                    ++ (s.reality_pub_key
                        ++ (codes "&fp="
                            ++ (s.fingerprint
                                ++ (codes "&sni="
                                    ++ (s.reality_server_name
                                        ++ (codes "&sid="
                                            ++ (s.reality_short_id
                                                ++ (codes "&spx=%2F&flow=xtls-rprx-vision#"
                                                    ++ link_label c.name (codes "reality")
                                                        s.tag))))))))))))

-- The options behind the address, in the order in which they are appended.
hysteria2_options : Settings → Text
hysteria2_options s =
    let obfs =
      if is_blank s.hysteria2_obfs
      then []
      else codes "?obfs=salamander&obfs-password=" ++ s.hysteria2_obfs in
    obfs

-- `strings.Contains(link, "?")` is asked of the whole link so far.
add_ports : Text → Settings → Text
add_ports link s =
    if is_blank s.hysteria2_hop_ports
    then link
    else link
      ++ ((if contains_text (codes "?") link then codes "&" else codes "?")
          ++ (codes "mport=" ++ replace_all (codes ":") (codes "-") s.hysteria2_hop_ports))

unfoldable pub hysteria2_link : Client → Settings → Text
unfolding hysteria2_options add_ports
hysteria2_link c s =
    let pass = if is_blank c.password then c.uuid else c.password in
    let link = codes "hy2://" ++ (pass ++ (codes "@" ++ (s.domain ++ codes ":443"))) in
    add_ports (link ++ hysteria2_options s) s
    ++ (b'#' ∷ link_label c.name (codes "hysteria2") s.tag)

unfoldable pub vless_ws_link : Client → Settings → Text
vless_ws_link c s =
    codes "vless://"
    ++ (c.uuid
        ++ (codes "@"
            ++ (s.domain
                ++ (codes ":443?type=ws&security=tls&path="
                    ++ (path_escape s.transport.ws
                        ++ (codes "&encryption=none&fp="
                            ++ (s.fingerprint
                                ++ (codes "#" ++ link_label c.name (codes "ws") s.tag))))))))

-- The JSON text that `json.Marshal` gives, its keys sorted.
unfoldable pub xhttp_extra : Text
xhttp_extra = base64_encode raw_url_base64 (
    codes
      "{\"xPaddingBytes\":\"100-2500\",\"xmux\":{\"hMaxReusableSecs\":\"300\",\"maxConcurrency\":\"16-32\"}}")

unfoldable pub xhttp_stealth_link : Client → Settings → Text
unfolding xhttp_extra
xhttp_stealth_link c s =
    codes "vless://"
    ++ (c.uuid
        ++ (codes "@"
            ++ (s.domain
                ++ (codes ":443?type=xhttp&security=tls&path="
                    ++ (path_escape s.transport.xhttp
                        ++ (codes "&encryption=none&mode=packet-up&host="
                            ++ (s.domain
                                ++ (codes "&fp="
                                    ++ (s.fingerprint
                                        ++ (codes "&extra="
                                            ++ (xhttp_extra
                                                ++ (codes "#"
                                                    ++ link_label c.name (codes "xhttp")
                                                        s.tag))))))))))))

unfoldable pub vless_httpupgrade_link : Client → Settings → Text
vless_httpupgrade_link c s =
    codes "vless://"
    ++ (c.uuid
        ++ (codes "@"
            ++ (s.domain
                ++ (codes ":443?type=httpupgrade&security=tls&path="
                    ++ (path_escape s.transport.upgrade
                        ++ (codes "&encryption=none&host="
                            ++ (s.domain
                                ++ (codes "&fp="
                                    ++ (s.fingerprint
                                        ++ (codes "#"
                                            ++ link_label c.name (codes "httpupgrade")
                                                s.tag))))))))))

unfoldable pub vless_grpc_link : Client → Settings → Text
vless_grpc_link c s =
    codes "vless://"
    ++ (c.uuid
        ++ (codes "@"
            ++ (s.domain
                ++ (codes ":443?type=grpc&security=tls&serviceName="
                    ++ (s.transport.grpc
                        ++ (codes "&encryption=none&host="
                            ++ (s.domain
                                ++ (codes "&fp="
                                    ++ (s.fingerprint
                                        ++ (codes "#"
                                            ++ link_label c.name (codes "grpc") s.tag))))))))))

abbrev key_value : Text → ℕ → Text × Text
key_value k n = (k, print n)

-- The query of the wireguard link.
awg_query : ClientAwg → Settings → Text
unfolding awg_params
awg_query a s =
    let psk = if is_blank a.psk then [] else (codes "presharedkey", a.psk) ∷ [] in
    encode_query (
      (codes "address", a.ip)
      ∷ (codes "publickey", s.awg_pub_key)
      ∷ (psk
          ++ (key_value (codes "mtu") awg_params.mtu
              ∷ (codes "header_protection_key", s.awg_header_key)
              ∷ (codes "content_padding_addition", awg_params.padding)
              ∷ key_value (codes "jc") awg_params.jc
              ∷ key_value (codes "jmin") awg_params.jmin
              ∷ key_value (codes "jmax") awg_params.jmax
              ∷ key_value (codes "s1") awg_params.s1
              ∷ key_value (codes "s2") awg_params.s2
              ∷ key_value (codes "s3") awg_params.s3
              ∷ key_value (codes "s4") awg_params.s4
              ∷ key_value (codes "h1") awg_params.h1
              ∷ key_value (codes "h2") awg_params.h2
              ∷ key_value (codes "h3") awg_params.h3
              ∷ key_value (codes "h4") awg_params.h4
              ∷ [])))

unfoldable pub wireguard_link : Client → ClientAwg → Settings → Text
unfolding awg_query
wireguard_link c a s =
    codes "wireguard://"
    ++ (query_escape a.priv_key
        ++ (codes "@"
            ++ (s.domain
                ++ (codes ":"
                    ++ (itoa (awg_port_of s)
                        ++ (codes "?"
                            ++ (awg_query a s
                                ++ (codes "#" ++ link_label c.name (codes "amneziawg") s.tag))))))))

-- A client without its private key has no link.
unfoldable pub amneziawg_link : Client → Settings → Text
unfolding wireguard_link
amneziawg_link c s = elim c.awg [
  | none ↦ []
  | some a ↦ if is_blank a.priv_key then [] else wireguard_link c a s
]
