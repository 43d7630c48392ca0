-- ===== src/Nginx/Backends.antt =====
-- internal/nginx/generator.go: the https server passes on to the inbounds of sing-box.
use uncut_core.Base.{eqb, ℕ, ◌≡◌, Bool, true, false, ◌&&◌, ◌||◌, Option, none, some, List, [], ◌∷◌}
use uncut_core.Text.{Text, codes, text_eq}
use uncut_core.Json.{Json, get}
use uncut_core.Config.Protocols.{xhttp_stealth, vless_ws, vless_httpupgrade, vless_grpc}
use uncut_core.Nginx.Template.{Line, line, pass, ServerData, tls_lines}
use uncut_core.Nginx.Locations.{
  sub_lines, doh_lines, xhttp_lines, ws_lines, upgrade_lines, grpc_lines, api_lines,
}
use uncut_core.Nginx.Server.{ssl_server}

-- The protocols that stand behind the https server.
pub data Web : Type 0 where
  xhttp_web ws_web upgrade_web grpc_web : Web

abbrev pub web_name : Web → Text
web_name xhttp_web = xhttp_stealth
web_name ws_web = vless_ws
web_name upgrade_web = vless_httpupgrade
web_name grpc_web = vless_grpc

abbrev pub web_port : Web → ℕ
web_port xhttp_web = 10002
web_port ws_web = 10001
web_port upgrade_web = 10004
web_port grpc_web = 10003

abbrev pub same_text : Text → Text → Bool
same_text [] [] = true
same_text [] (b ∷ t) = false
same_text (a ∷ s) [] = false
same_text (a ∷ s) (b ∷ t) = eqb a b && same_text s t

-- The line passes a request on to the backend of the protocol: to its port, or, for xhttp, to the
-- upstream of that name.
abbrev pub is_backend : Web → Line → Bool
is_backend xhttp_web (line t) = same_text t (codes "        proxy_pass http://xhttp_backend;")
is_backend xhttp_web (pass before port after) = false
is_backend w (line t) = false
is_backend grpc_web (pass before port after) =
    same_text before (codes "        grpc_pass grpc://127.0.0.1:")
    && eqb port (web_port grpc_web)
    && same_text after (codes ";")
is_backend w (pass before port after) =
    same_text before (codes "        proxy_pass http://127.0.0.1:")
    && eqb port (web_port w)
    && same_text after (codes ";")

-- The line opens the upstream of xhttp.
abbrev pub is_upstream : Line → Bool
is_upstream (line t) = same_text t (codes "upstream xhttp_backend {")
is_upstream (pass before port after) = false

-- The line is the server of an upstream, on the port of xhttp.
abbrev pub is_upstream_server : Line → Bool
is_upstream_server (line t) = false
is_upstream_server (pass before port after) =
    same_text before (codes "    server 127.0.0.1:")
    && eqb port (web_port xhttp_web)
    && same_text after (codes ";")

abbrev pub any_line : (Line → Bool) → List Line → Bool
any_line f [] = false
any_line f (l ∷ ls) = f l || any_line f ls

-- nginx passes requests on to the port of the protocol.
abbrev pub passes : Web → List Line → Bool
passes xhttp_web ls =
    any_line (is_backend xhttp_web) ls && any_line is_upstream ls && any_line is_upstream_server ls
passes w ls = any_line (is_backend w) ls

-- Whether the server template renders the locations of a protocol.
abbrev wanted_web : ServerData → Web → Bool
wanted_web d xhttp_web = d.xhttp
wanted_web d ws_web = d.ws
wanted_web d upgrade_web = d.upgrade
wanted_web d grpc_web = d.grpc

abbrev SslParts : ServerData → (Line → Bool) → Type 0
SslParts d f = any_line f (ssl_server d) ≡ (
    any_line f (tls_lines d)
    || (any_line f (sub_lines d)
        || (any_line f (doh_lines d)
            || ((d.xhttp && any_line f (xhttp_lines d))
                || ((d.ws && any_line f (ws_lines d))
                    || ((d.upgrade && any_line f (upgrade_lines d))
                        || ((d.grpc && any_line f (grpc_lines d)) || any_line f (api_lines d))))))))

-- The port of an inbound.
abbrev pub listen_port : Option Json → Option Json
listen_port none = none
listen_port (some j) = get (codes "listen_port") j
