-- ===== src/Nginx/Server.antt =====
-- internal/nginx/generator.go: the server configuration and the three files.
use uncut_core.Base.{
  if◌then◌else◌, contains, Result, ok, err, Map, Bool, true, false, ◌&&◌, ◌||◌, Option, none, some,
  List, [], ◌∷◌, ◌++◌,
}
use uncut_core.Text.{Text, codes, text_eq}
use uncut_core.Config.Protocols.{
  xhttp_stealth, vless_ws, vless_httpupgrade, vless_grpc, resolve_protocols,
}
use uncut_core.Transport.{sub_location, doh_path}
use uncut_core.Files.{make_dir, Disk}
use uncut_core.Files.Moves.{stats}
use uncut_core.Nginx.{GeneratorOptions, NginxError, generate_stream_config}
use uncut_core.Nginx.Locations.{
  sub_lines, doh_lines, xhttp_lines, ws_lines, upgrade_lines, grpc_lines, api_lines,
}
use uncut_core.Nginx.Template.{Line, lines_text, ServerData, upstream_lines, head_lines, tls_lines}

abbrev pub subs_zone_name : Text
subs_zone_name = codes "anti_subs"

abbrev pub conf_dir : Text
conf_dir = codes "/etc/nginx/conf.d"

abbrev pub stream_conf_dir : Text
stream_conf_dir = codes "/etc/nginx/stream-conf.d"

abbrev pub when : Bool → List Line → List Line
when true ls = ls
when false ls = []

-- The https server, which has a location for each active protocol behind it.
unfoldable pub ssl_server : ServerData → List Line
ssl_server d =
    tls_lines d
    ++ (sub_lines d
        ++ (doh_lines d
            ++ (when d.xhttp (xhttp_lines d)
                ++ (when d.ws (ws_lines d)
                    ++ (when d.upgrade (upgrade_lines d)
                        ++ (when d.grpc (grpc_lines d) ++ api_lines d))))))

unfoldable pub server_lines : ServerData → List Line
server_lines d = when d.xhttp (upstream_lines d) ++ (head_lines d ++ when d.cert (ssl_server d))

unfoldable pub certificate_file : GeneratorOptions → Text → Text
certificate_file opts ext =
    opts.install_dir ++ (codes "/certs/certificates/" ++ (opts.domain ++ ext))

-- Both files have to be there before the https server is rendered.
unfoldable pub certful : GeneratorOptions → Disk → Bool
certful opts d =
    stats (certificate_file opts (codes ".crt")) d && stats (certificate_file opts (codes ".key")) d

unfoldable pub server_data : GeneratorOptions → Disk → ServerData
server_data opts d =
    let active = resolve_protocols opts.active_protocols in
    record {
      xhttp = contains active xhttp_stealth;
      ws = contains active vless_ws;
      upgrade = contains active vless_httpupgrade;
      grpc = contains active vless_grpc;
      cert = certful opts d;
      domain = opts.domain;
      web_root = opts.web_root;
      log_dir = opts.log_dir;
      install_dir = opts.install_dir;
      sub_location = sub_location opts.transport;
      subs_zone = subs_zone_name;
      subs_dir = opts.subs_dir;
      doh_path = doh_path opts.transport;
      xhttp_path = opts.transport.xhttp;
      ws_path = opts.transport.ws;
      upgrade_path = opts.transport.upgrade;
      grpc_service = opts.transport.grpc;
      telegram_port = codes "8080";
    }

unfoldable pub generate_server_config : GeneratorOptions → Disk → Text
generate_server_config opts d = lines_text (server_lines (server_data opts d))

abbrev pub any_broken : List Text → Disk → Bool
any_broken [] d = false
any_broken (dir ∷ dirs) d = d.broken (make_dir dir) || any_broken dirs d

abbrev pub server_file : Text
server_file = conf_dir ++ codes "/uncut.conf"

abbrev pub stream_file : Text
stream_file = stream_conf_dir ++ codes "/uncut-stream.conf"

abbrev pub limits_file : Text
limits_file = conf_dir ++ codes "/00-uncut-limits.conf"

abbrev limits_text : Text
limits_text =
    codes "limit_req_zone $binary_remote_addr zone="
    ++ (subs_zone_name ++ codes ":10m rate=10r/s;\n")

abbrev pub three_of : GeneratorOptions → Disk → Text → Map Text Text
three_of opts d stream =
    (server_file, generate_server_config opts d)
    ∷ (stream_file, stream)
    ∷ (limits_file, limits_text)
    ∷ []

abbrev pub three_files : GeneratorOptions → Disk → Result NginxError Text → Option (Map Text Text)
three_files opts d (err e) = none
three_files opts d (ok stream) = some (three_of opts d stream)

abbrev pub made_dirs : GeneratorOptions → List Text
made_dirs opts = conf_dir ∷ opts.subs_dir ∷ opts.log_dir ∷ opts.web_root ∷ stream_conf_dir ∷ []

-- None on any error; the directories that it makes are not kept track of.
unfoldable pub files : GeneratorOptions → Disk → Option (Map Text Text)
files opts d =
    if any_broken (made_dirs opts) d then none else three_files opts d (generate_stream_config opts)
