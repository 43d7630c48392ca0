-- ===== src/Nginx/Locations.antt =====
-- internal/nginx/generator.go: the locations of the https server in the server template.
use uncut_core.Base.{List, [], ◌∷◌, ◌++◌}
use uncut_core.Text.{codes}
use uncut_core.Config.Ports.{ports}
use uncut_core.Nginx.Template.{Line, line, pass, ServerData}

module _ (d : ServerData) where
  unfoldable pub sub_lines : List Line
  sub_lines =
      line (codes "    location ~ \"" ++ (d.sub_location ++ codes "\" {"))
      ∷ line (codes "        limit_req zone=" ++ (d.subs_zone ++ codes " burst=20 nodelay;"))
      ∷ line (codes "        alias " ++ (d.subs_dir ++ codes "/$1;"))
      ∷ line (codes "        default_type \"application/octet-stream\";")
      ∷ line (codes "        add_header Content-Disposition \"inline\";")
      ∷ line (
          codes
            "        add_header Cache-Control \"private, no-cache, no-store, must-revalidate\" always;")
      ∷ line (codes "    }")
      ∷ line []
      ∷ []

  unfoldable pub doh_lines : List Line
  doh_lines =
      line (codes "    location = " ++ (d.doh_path ++ codes " {"))
      ∷ line (codes "        limit_req zone=" ++ (d.subs_zone ++ codes " burst=20 nodelay;"))
      ∷ pass (codes "        proxy_pass http://127.0.0.1:") ports.doh (codes "/dns-query;")
      ∷ line (codes "        proxy_buffering off;")
      ∷ line (codes "    }")
      ∷ line []
      ∷ []

  unfoldable pub xhttp_lines : List Line
  xhttp_lines =
      line (codes "    location ^~ " ++ (d.xhttp_path ++ codes " {"))
      ∷ line (codes "        proxy_pass http://xhttp_backend;")
      ∷ line (codes "        proxy_http_version 1.1;")
      ∷ line (codes "        proxy_set_header Connection \"\";")
      ∷ line (codes "        proxy_buffering off;")
      ∷ line (codes "        proxy_request_buffering off;")
      ∷ line (codes "        proxy_ignore_client_abort on;")
      ∷ line (codes "        proxy_next_upstream off;")
      ∷ line (codes "        tcp_nodelay on;")
      ∷ line (codes "        client_max_body_size 0;")
      ∷ line (codes "        proxy_read_timeout 1h;")
      ∷ line (codes "        proxy_send_timeout 1h;")
      ∷ line (codes "        proxy_set_header Host $host;")
      ∷ line (codes "        proxy_set_header X-Real-IP $remote_addr;")
      ∷ line (codes "        proxy_set_header X-Forwarded-For $proxy_add_x_forwarded_for;")
      ∷ line (codes "        proxy_set_header X-Forwarded-Proto $scheme;")
      ∷ line
          (codes "        access_log " ++ (d.log_dir ++ codes "/probe.log combined if=$log_probe;"))
      ∷ line (codes "    }")
      ∷ line []
      ∷ []

  unfoldable pub ws_lines : List Line
  ws_lines =
      line (codes "    location = " ++ (d.ws_path ++ codes " {"))
      ∷ pass (codes "        proxy_pass http://127.0.0.1:") ports.ws (codes ";")
      ∷ line (codes "        proxy_http_version 1.1;")
      ∷ line (codes "        proxy_buffering off;")
      ∷ line (codes "        proxy_request_buffering off;")
      ∷ line (codes "        tcp_nodelay on;")
      ∷ line (codes "        proxy_set_header Upgrade $http_upgrade;")
      ∷ line (codes "        proxy_set_header Connection \"upgrade\";")
      ∷ line (codes "        proxy_read_timeout 300s;")
      ∷ line (codes "        proxy_set_header Host $host;")
      ∷ line (codes "        proxy_set_header X-Real-IP $remote_addr;")
      ∷ line (codes "        proxy_set_header X-Forwarded-For $proxy_add_x_forwarded_for;")
      ∷ line
          (codes "        access_log " ++ (d.log_dir ++ codes "/probe.log combined if=$log_probe;"))
      ∷ line (codes "    }")
      ∷ line []
      ∷ []

  unfoldable pub upgrade_lines : List Line
  upgrade_lines =
      line (codes "    location = " ++ (d.upgrade_path ++ codes " {"))
      ∷ pass (codes "        proxy_pass http://127.0.0.1:") ports.upgrade (codes ";")
      ∷ line (codes "        proxy_http_version 1.1;")
      ∷ line (codes "        proxy_buffering off;")
      ∷ line (codes "        proxy_request_buffering off;")
      ∷ line (codes "        tcp_nodelay on;")
      ∷ line (codes "        proxy_set_header Upgrade $http_upgrade;")
      ∷ line (codes "        proxy_set_header Connection \"upgrade\";")
      ∷ line (codes "        proxy_read_timeout 1h;")
      ∷ line (codes "        proxy_set_header Host $host;")
      ∷ line (codes "        proxy_set_header X-Real-IP $remote_addr;")
      ∷ line (codes "        proxy_set_header X-Forwarded-For $proxy_add_x_forwarded_for;")
      ∷ line
          (codes "        access_log " ++ (d.log_dir ++ codes "/probe.log combined if=$log_probe;"))
      ∷ line (codes "    }")
      ∷ line []
      ∷ []

  unfoldable pub grpc_lines : List Line
  grpc_lines =
      line (codes "    location /" ++ (d.grpc_service ++ codes "/ {"))
      ∷ pass (codes "        grpc_pass grpc://127.0.0.1:") ports.grpc (codes ";")
      ∷ line (codes "        client_max_body_size 0;")
      ∷ line (codes "        client_body_buffer_size 512k;")
      ∷ line (codes "        grpc_buffer_size 512k;")
      ∷ line (codes "        grpc_read_timeout 1h;")
      ∷ line (codes "        grpc_send_timeout 1h;")
      ∷ line (codes "        grpc_set_header Host $host;")
      ∷ line (codes "        grpc_set_header X-Real-IP $remote_addr;")
      ∷ line
          (codes "        access_log " ++ (d.log_dir ++ codes "/probe.log combined if=$log_probe;"))
      ∷ line (codes "    }")
      ∷ line []
      ∷ []

  unfoldable pub api_lines : List Line
  api_lines =
      line (codes "    location /api/v1/ {")
      ∷ line (codes "        proxy_pass http://127.0.0.1:" ++ (d.telegram_port ++ codes ";"))
      ∷ line (codes "        # tproxy's own error page must not stand out from any other miss.")
      ∷ line (codes "        proxy_intercept_errors on;")
      ∷ line (codes "        proxy_http_version 1.1;")
      ∷ line (codes "        proxy_buffering off;")
      ∷ line (codes "        proxy_request_buffering off;")
      ∷ line (codes "        client_max_body_size 0;")
      ∷ line (codes "        proxy_set_header Upgrade $http_upgrade;")
      ∷ line (codes "        proxy_set_header Connection $connection_upgrade;")
      ∷ line (codes "        proxy_set_header Host $host;")
      ∷ line (codes "        proxy_set_header X-Real-IP $remote_addr;")
      ∷ line (
          codes
            "        # tproxy takes one address and rejects a list, so the appending form would make a client arriving with its own header lose the bridge.")
      ∷ line (codes "        proxy_set_header X-Forwarded-For $remote_addr;")
      ∷ line (codes "        proxy_set_header X-Forwarded-Proto $scheme;")
      ∷ line (codes "        proxy_read_timeout 60s;")
      ∷ line (codes "        proxy_send_timeout 60s;")
      ∷ line (codes "    }")
      ∷ line []
      ∷ line (codes "    location = / {")
      ∷ line (
          codes
            "        # proxy_set_header at location level only; bridge if-block inherits them: Host pins tproxy, X-Forwarded-For stays single-address.")
      ∷ line (codes "        proxy_set_header Host $host;")
      ∷ line (codes "        proxy_set_header X-Forwarded-For $remote_addr;")
      ∷ line (codes "        if ($arg_bridge != \"\") {")
      ∷ line
          (codes "            # The query carries the bridge capability; a log line would leak it.")
      ∷ line (codes "            access_log off;")
      ∷ line (codes "            proxy_pass http://127.0.0.1:" ++ (d.telegram_port ++ codes ";"))
      ∷ line (codes "            break;")
      ∷ line (codes "        }")
      ∷ line (codes "        return 404;")
      ∷ line (codes "    }")
      ∷ line []
      ∷ line
          (codes "    # Nothing is published; a stock 404 is the norm and doesn't correlate nodes.")
      ∷ line (codes "    location / {")
      ∷ line (codes "        return 404;")
      ∷ line (codes "    }")
      ∷ line (codes "}")
      ∷ []
