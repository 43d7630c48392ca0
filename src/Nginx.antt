-- ===== src/Nginx.antt =====
-- internal/nginx/generator.go: the stream configuration, which splits TCP 443 by the TLS name.
pub mod Template
pub mod Locations
pub mod Server
pub mod Backends
pub mod Reading
pub mod Rendered
pub mod Laws
use uncut_core.Base.{if◌then◌else◌, ◌==◌, Result, ok, err, ℕ, not, ◌&&◌, List, [], ◌∷◌, ◌++◌}
use uncut_core.Text.{Text, codes, text_eq, is_blank, to_lower}
use uncut_core.Text.Trim.{trim_space}
use uncut_core.Text.Decimal.{print}
use uncut_core.Config.Ports.{ports}
use uncut_core.Transport.{Transport}

pub record GeneratorOptions : Type 0 where
  pub domain : Text
  pub install_dir : Text
  pub subs_dir : Text
  pub log_dir : Text
  pub web_root : Text
  pub active_protocols : List Text
  pub transport : Transport
  pub reality_server_name : Text
  pub mtproto_tls_domain : Text

pub data NginxError : Type 0 where
  sni_collision : Text → NginxError

-- `strings.ToLower(strings.TrimSpace(s))`
unfoldable pub name_of : Text → Text
unfolding trim_space to_lower
name_of s = to_lower (trim_space s)

abbrev pub route_if : Text → ℕ → List (Text × ℕ)
route_if name port = if is_blank name then [] else (name, port) ∷ []

-- The keys of the map with their loopback ports, in order; the default comes after them.
unfoldable pub routes : GeneratorOptions → Result NginxError (List (Text × ℕ))
unfolding name_of ports
routes opts =
    let sni = name_of opts.reality_server_name in
    let tls_domain = name_of opts.mtproto_tls_domain in
    if not (is_blank tls_domain) && (tls_domain == sni)
    then err (sni_collision tls_domain)
    else ok (route_if sni ports.reality ++ route_if tls_domain ports.mtproto_tls)

unfoldable pub route_line : Text → ℕ → Text
unfolding print
route_line name port =
    codes "        " ++ (name ++ (codes " 127.0.0.1:" ++ (print port ++ codes ";\n")))

unfoldable pub route_lines : List (Text × ℕ) → Text
unfolding route_line ports
route_lines [] = route_line (codes "default") ports.https_backend
route_lines ((name, port) ∷ rs) = route_line name port ++ route_lines rs

abbrev pub stream_head : Text
stream_head =
    codes
      "# SNI splitter: TCP 443 is fanned out by TLS server name. Reality (sing-box), the optional MTProxy FakeTLS branch and the https server share one public port; UDP 443 stays with Hysteria2 - the stream module is TCP only.\nstream {\n    map $ssl_preread_server_name $uncut_tls_backend {\n"

abbrev pub stream_tail : Text
stream_tail =
    codes
      "    }\n\n    server {\n        listen 0.0.0.0:443;\n        listen [::]:443;\n        ssl_preread on;\n        proxy_pass $uncut_tls_backend;\n    }\n}\n"

abbrev stream_text : Result NginxError (List (Text × ℕ)) → Result NginxError Text
stream_text (err e) = err e
stream_text (ok rs) = ok (stream_head ++ (route_lines rs ++ stream_tail))

unfoldable pub generate_stream_config : GeneratorOptions → Result NginxError Text
unfolding routes route_lines
generate_stream_config opts = stream_text (routes opts)
