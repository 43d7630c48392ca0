-- ===== src/Nginx/Template.antt =====
-- internal/nginx/generator.go: the text of the server template around the locations.
--
-- A line either is text or names the loopback port of another part of the node.
use uncut_core.Base.{ℕ, Bool, List, [], ◌∷◌, ◌++◌}
use uncut_core.Text.{Text, codes}
use uncut_core.Text.Decimal.{print}
use uncut_core.Config.Ports.{ports}

pub data Line : Type 0 where
  line : Text → Line
  pass : Text → ℕ → Text → Line

unfoldable pub line_text : Line → Text
line_text (line t) = t ++ (10 ∷ [])
line_text (pass before port after) = before ++ (print port ++ (after ++ (10 ∷ [])))

unfoldable pub lines_text : List Line → Text
lines_text [] = []
lines_text (l ∷ ls) = line_text l ++ lines_text ls

pub record ServerData : Type 0 where
  pub xhttp : Bool
  pub ws : Bool
  pub upgrade : Bool
  pub grpc : Bool
  pub cert : Bool
  pub domain : Text
  pub web_root : Text
  pub log_dir : Text
  pub install_dir : Text
  pub sub_location : Text
  pub subs_zone : Text
  pub subs_dir : Text
  pub doh_path : Text
  pub xhttp_path : Text
  pub ws_path : Text
  pub upgrade_path : Text
  pub grpc_service : Text
  pub telegram_port : Text

module _ (d : ServerData) where
  unfoldable pub upstream_lines : List Line
  upstream_lines =
      line (codes "upstream xhttp_backend {")
      ∷ pass (codes "    server 127.0.0.1:") ports.xhttp (codes ";")
      ∷ line (codes "    keepalive 64;")
      ∷ line (codes "    keepalive_requests 10000;")
      ∷ line (codes "}")
      ∷ line []
      ∷ []

  unfoldable pub head_lines : List Line
  head_lines =
      line (codes "map $http_upgrade $connection_upgrade {")
      ∷ line (codes "    default upgrade;")
      ∷ line (codes "    ''      close;")
      ∷ line (codes "}")
      ∷ line []
      ∷ line (codes "map $status $log_probe {")
      ∷ line (codes "    ~^4    1;")
      ∷ line (codes "    default 0;")
      ∷ line (codes "}")
      ∷ line []
      ∷ line (codes "server {")
      ∷ line (codes "    listen 80 default_server;")
      ∷ line (codes "    server_name _;")
      ∷ line (codes "    server_tokens off;")
      ∷ line (codes "    return 301 https://$host$request_uri;")
      ∷ line (codes "}")
      ∷ line []
      ∷ line (codes "server {")
      ∷ line (codes "    listen 80;")
      ∷ line (codes "    server_name " ++ (d.domain ++ codes ";"))
      ∷ line (codes "    server_tokens off;")
      ∷ line []
      ∷ line (codes "    location ^~ /.well-known/acme-challenge/ {")
      ∷ line (codes "        root " ++ (d.web_root ++ codes ";"))
      ∷ line (codes "        allow all;")
      ∷ line (codes "    }")
      ∷ line []
      ∷ line (codes "    location / {")
      ∷ line (codes "        return 301 https://$host$request_uri;")
      ∷ line (codes "    }")
      ∷ line (codes "}")
      ∷ line []
      ∷ line (codes "server {")
      ∷ pass (codes "    listen 127.0.0.1:") ports.https_backend (codes " ssl default_server;")
      ∷ line (codes "    server_name _;")
      ∷ line (codes "    server_tokens off;")
      ∷ line (codes "    ssl_reject_handshake on;")
      ∷ line (
          codes
            "    # The default server's SSL context answers the ClientHello before SNI switches it, so the group list must be pinned here too.")
      ∷ line (codes "    ssl_ecdh_curve X25519:prime256v1;")
      ∷ line (codes "}")
      ∷ line []
      ∷ []

  unfoldable pub tls_lines : List Line
  tls_lines =
      line (codes "server {")
      ∷ line (
          codes
            "    # TCP 443 is owned by the stream splitter; nginx sits on loopback, no QUIC (UDP 443 belongs to Hysteria2).")
      ∷ pass (codes "    listen 127.0.0.1:") ports.https_backend (codes " ssl;")
      ∷ line (codes "    http2 on;")
      ∷ line (codes "    server_name " ++ (d.domain ++ codes ";"))
      ∷ line (codes "    server_tokens off;")
      ∷ line []
      ∷ line (codes "    access_log " ++ (d.log_dir ++ codes "/access.log;"))
      ∷ line (codes "    access_log " ++ (d.log_dir ++ codes "/probe.log combined if=$log_probe;"))
      ∷ line (codes "    error_log " ++ (d.log_dir ++ codes "/error.log warn;"))
      ∷ line []
      ∷ line (
          codes "    ssl_certificate "
          ++ (d.install_dir ++ (codes "/certs/certificates/" ++ (d.domain ++ codes ".crt;"))))
      ∷ line (
          codes "    ssl_certificate_key "
          ++ (d.install_dir ++ (codes "/certs/certificates/" ++ (d.domain ++ codes ".key;"))))
      ∷ line (codes "    ssl_protocols TLSv1.2 TLSv1.3;")
      ∷ line (
          codes
            "    # Telegram Android's web proxy client fails when X25519MLKEM768 is offered, which newer OpenSSL enables by default.")
      ∷ line (codes "    ssl_ecdh_curve X25519:prime256v1;")
      ∷ line (
          codes
            "    ssl_ciphers ECDHE-ECDSA-AES128-GCM-SHA256:ECDHE-RSA-AES128-GCM-SHA256:ECDHE-ECDSA-AES256-GCM-SHA384:ECDHE-RSA-AES256-GCM-SHA384:ECDHE-ECDSA-CHACHA20-POLY1305:ECDHE-RSA-CHACHA20-POLY1305;")
      ∷ line (codes "    ssl_prefer_server_ciphers off;")
      ∷ line (codes "    ssl_session_cache shared:SSL:10m;")
      ∷ line (codes "    ssl_session_timeout 1h;")
      ∷ line (codes "    ssl_session_tickets on;")
      ∷ line (codes "    # No OCSP stapling: Let's Encrypt shut its OCSP responders down in 2025.")
      ∷ line []
      ∷ line (
          codes
            "    add_header Strict-Transport-Security \"max-age=31536000; includeSubDomains\" always;")
      ∷ line (codes "    add_header X-Content-Type-Options \"nosniff\" always;")
      ∷ line (codes "    add_header X-Request-Id $request_id always;")
      ∷ line []
      ∷ line (codes "    proxy_set_header Host $host;")
      ∷ line (codes "    proxy_set_header X-Real-IP $remote_addr;")
      ∷ line (codes "    proxy_set_header X-Forwarded-For $proxy_add_x_forwarded_for;")
      ∷ line (codes "    proxy_set_header X-Forwarded-Proto $scheme;")
      ∷ line (codes "    proxy_http_version 1.1;")
      ∷ line (codes "    proxy_buffers 8 64k;")
      ∷ line (codes "    proxy_buffer_size 128k;")
      ∷ line (codes "    client_body_buffer_size 512k;")
      ∷ line (codes "    client_max_body_size 1m;")
      ∷ line []
      ∷ []
