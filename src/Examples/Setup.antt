-- ===== src/Examples/Setup.antt =====
-- The stored settings and the node commands at concrete inputs.
use uncut_core.Base.{
  if◌then◌else◌, ◌==◌, contains, Distinct, ok, lookup, insert, ◌≡◌, refl, Bool, true, false, not,
  ◌&&◌, ◌||◌, Option, some, [], ◌∷◌, ◌++◌,
}
use uncut_core.Text.{
  Text, codes, Text-discrete, text_eq, is_blank, is_upper, is_space, lower_code, to_lower,
}
use uncut_core.Text.Trim.{trim_left, put_before, trim_right, trim_space}
use uncut_core.Text.Split.{extend_first, split}
use uncut_core.Text.Decimal.{pos, digits, print, itoa}
use uncut_core.Config.Protocols.{
  xhttp_stealth, vless_ws, vless_httpupgrade, vless_grpc, vless_reality, hysteria2, amneziawg,
  default_protocols, is_valid_protocol, clean_from, clean_protocols,
}
use uncut_core.Config.Ports.{ports, validate_positive, validate_awg_port}
use uncut_core.Store.{
  select_setting, or_no_rows, get_setting, set_setting, upsert_all, commit_settings, set_settings,
}
use uncut_core.Config.{Settings, AppConfig}
use uncut_core.Core.Awg.{awg_private_key, awg_public_key, awg_header_protection_key}
use uncut_core.Core.IpSync.{
  default_ip_endpoints, server_ip, first_answer, get_public_ipv4, sync_from, sync_server_ip,
}
use uncut_core.Setup.Bootstrap.{Start, reality_private_key, reality_public_key, bootstrap}
use uncut_core.Setup.Bootstrap.Restart.{changing_keys, bootstrap-Keeps}
use uncut_core.Nginx.{
  GeneratorOptions, name_of, routes, route_lines, stream_head, stream_tail, generate_stream_config,
}
use uncut_core.Nginx.Laws.{keys_of, routes_lem}
use uncut_core.Setup.{default_options, get}
use uncut_core.Setup.Load.{transport_key, settings_of, save_transport, load_transport, load}
use uncut_core.Setup.Protocols.{
  trimmed_parts, split_list, missing_from, merge_missing, protocols_key, protocols_explicit_key,
  explicit_mark, save_merged, merge_default_protocols,
}
use uncut_core.Setup.Protocols.Laws.{protocols_of, is_explicit, merge_default_protocols_lem}
use uncut_core.Nodeops.{loaded_settings, reloaded, save, save_all}
use uncut_core.Nodeops.Names.{
  host_of, tls_domain_key, tls_domain_allowed, set_mtproto_tls_domain, set_protocols,
}
use uncut_core.Transport.{
  hash_token, default_reality_sni, generate, is_unsafe, has_unsafe, is_valid,
}
use uncut_core.Nodeops.Names.Apart.{IsAllowed, set_mtproto_tls_domain_lem}
use uncut_core.Nodeops.Names.Laws.{set_protocols_lem}
use uncut_core.Nodeops.Numbers.{awg_port_key, set_awg_port}
use uncut_core.Examples.Data.{
  random_paths, a_transport, a_store, toy_curve, a_draw, toy_codec, a_context,
}
use uncut_core.Nginx.Reading.{entries_of, answer, is_host, loopback}

merged : (merge_default_protocols a_store).0 ≡ ok tt
unfolding merge_default_protocols save_merged merge_missing missing_from split_list trimmed_parts
    split extend_first get get_setting or_no_rows lookup set_setting insert trim_space trim_left
    trim_right put_before is_space protocols_key protocols_explicit_key explicit_mark
    default_protocols xhttp_stealth vless_ws vless_httpupgrade vless_grpc vless_reality hysteria2
    amneziawg Text-discrete
merged = refl

merge_default_protocols_lem_example :
    contains (protocols_of (merge_default_protocols a_store).1) vless_ws ≡ (
      contains (protocols_of a_store) vless_ws
      || (not (is_explicit a_store) && contains default_protocols vless_ws))
merge_default_protocols_lem_example = merge_default_protocols_lem a_store merged refl vless_ws

port_set : (set_awg_port a_context (pos 5000) a_store).0 ≡ ok tt
unfolding set_awg_port validate_awg_port validate_positive itoa print digits save reloaded
    set_setting insert awg_port_key Text-discrete
port_set = refl

protocols_set :
    (set_protocols a_context (codes "vless-ws" ∷ codes "hysteria2" ∷ []) a_store).0
    ≡ ok (vless_ws ∷ hysteria2 ∷ [])
unfolding set_protocols clean_protocols clean_from trim_space trim_left trim_right put_before
    is_space is_valid_protocol default_protocols xhttp_stealth vless_ws vless_httpupgrade vless_grpc
    vless_reality hysteria2 amneziawg save_all set_settings upsert_all commit_settings insert
    reloaded Text-discrete
protocols_set = refl

set_protocols_lem_example :
    (protocols_of (set_protocols a_context (codes "vless-ws" ∷ codes "hysteria2" ∷ []) a_store).1
      ≡ vless_ws ∷ hysteria2 ∷ [])
    × (merge_default_protocols
          (set_protocols a_context (codes "vless-ws" ∷ codes "hysteria2" ∷ []) a_store).1
        ≡ (ok tt, (set_protocols a_context (codes "vless-ws" ∷ codes "hysteria2" ∷ []) a_store).1))
set_protocols_lem_example =
    set_protocols_lem a_context (codes "vless-ws" ∷ codes "hysteria2" ∷ []) a_store protocols_set
      refl refl

abbrev a_start : Start
a_start = record {
  reality_bytes = some (1 ∷ []);
  server_keys = record { private_bytes = some (1 ∷ []); psk_bytes = 2 ∷ [] };
  secret_bytes = λ key n. 7;
  client_keys = λ n. record { private_bytes = some (3 ∷ []); psk_bytes = 4 ∷ [] };
  seeds = λ name. a_draw;
  paths = random_paths;
  now = 9;
  answer = λ endpoint. some (codes "192.0.2.7");
  is_ipv4 = λ text. true;
}

abbrev an_environment : AppConfig
an_environment = record {
  domain = codes "other.example";
  email = codes "a@n.example";
  tag = codes "nl";
  timezone = [];
  clients = [];
  log_level = [];
  bandwidth = [];
}

domain_apart : contains changing_keys (codes "domain") ≡ false
unfolding server_ip reality_private_key reality_public_key awg_private_key awg_public_key
    awg_header_protection_key protocols_key Text-discrete
domain_apart = refl

domain_held : lookup (codes "domain") a_store.settings ≡ some (codes "n.example")
unfolding lookup Text-discrete
domain_held = refl

bootstrap-Keeps_example :
    get
      (codes "domain")
      (bootstrap toy_curve toy_codec an_environment
        (default_options (codes "/data") (codes "/opt"))
        a_start
        a_store).1
    ≡ codes "n.example"
bootstrap-Keeps_example =
    bootstrap-Keeps toy_curve toy_codec an_environment
      (default_options (codes "/data") (codes "/opt")) a_start (codes "domain") (codes "n.example")
      a_store domain_apart refl domain_held refl

tls_domain_set :
    (set_mtproto_tls_domain a_context (codes " TLS.example") a_store).0 ≡ ok (codes "tls.example")
unfolding set_mtproto_tls_domain host_of tls_domain_allowed loaded_settings load load_transport
    settings_of save_transport generate is_valid has_unsafe is_unsafe transport_key get get_setting
    or_no_rows lookup set_setting insert save reloaded tls_domain_key trim_space trim_left
    trim_right put_before is_space to_lower lower_code Text-discrete default_reality_sni hash_token
    is_upper
tls_domain_set = refl

tls_readable : (loaded_settings a_context a_store).1.broken (select_setting tls_domain_key) ≡ false
unfolding loaded_settings load load_transport save_transport generate is_valid has_unsafe is_unsafe
    transport_key get get_setting or_no_rows lookup set_setting insert Text-discrete
    default_reality_sni hash_token
tls_readable = refl

host_not_blank : is_blank (host_of (codes " TLS.example")) ≡ false
unfolding host_of trim_space trim_left trim_right put_before is_space to_lower lower_code is_upper
host_not_blank = refl

set_mtproto_tls_domain_lem_example :
    (settings : Settings) × ((loaded_settings a_context a_store).0 ≡ ok settings)
    × IsAllowed a_context (host_of (codes " TLS.example")) settings
    × (get tls_domain_key (set_mtproto_tls_domain a_context (codes " TLS.example") a_store).1
        ≡ host_of (codes " TLS.example"))
set_mtproto_tls_domain_lem_example =
    set_mtproto_tls_domain_lem a_context (codes " TLS.example") a_store host_not_blank
      tls_domain_set tls_readable

abbrev all_answer : Text → Option Text
all_answer endpoint = some (codes "192.0.2.7\n")

abbrev all_ipv4 : Text → Bool
all_ipv4 text = true

synced : (sync_server_ip all_answer all_ipv4 false a_store).0 ≡ ok (codes "192.0.2.7", true)
unfolding sync_server_ip sync_from get_public_ipv4 first_answer default_ip_endpoints trim_space
    trim_left trim_right put_before is_space get_setting or_no_rows lookup set_setting insert
    server_ip Text-discrete
synced = refl

abbrev stream_options : GeneratorOptions
stream_options = record {
  domain = codes "n.example";
  install_dir = codes "/opt";
  subs_dir = codes "/subs";
  log_dir = codes "/log";
  web_root = codes "/www";
  active_protocols = [];
  transport = a_transport;
  reality_server_name = codes "SNI.example";
  mtproto_tls_domain = codes "tls.example ";
}

abbrev stream_config : Text
stream_config =
    stream_head
    ++ (route_lines
          ((codes "sni.example", ports.reality) ∷ (codes "tls.example", ports.mtproto_tls) ∷ [])
        ++ stream_tail)

streamed : generate_stream_config stream_options ≡ ok stream_config
unfolding generate_stream_config routes name_of trim_space trim_left trim_right put_before is_space
    to_lower lower_code is_upper Text-discrete
streamed = refl

reality-is_host : is_host (to_lower (trim_space stream_options.reality_server_name)) ≡ true
unfolding trim_space trim_left trim_right put_before is_space to_lower lower_code is_upper
    Text-discrete
reality-is_host = refl

tls-is_host : is_host (to_lower (trim_space stream_options.mtproto_tls_domain)) ≡ true
unfolding trim_space trim_left trim_right put_before is_space to_lower lower_code is_upper
    Text-discrete
tls-is_host = refl

routes_lem_example :
    Distinct (keys_of (entries_of stream_config))
    × (answer (entries_of stream_config) (codes "Sni.Example") ≡ (
        if to_lower (codes "Sni.Example")
          == to_lower (trim_space stream_options.reality_server_name)
        then loopback ports.reality
        else if to_lower (codes "Sni.Example")
            == to_lower (trim_space stream_options.mtproto_tls_domain)
        then loopback ports.mtproto_tls
        else loopback ports.https_backend))
routes_lem_example =
    routes_lem stream_options (codes "Sni.Example") reality-is_host tls-is_host streamed refl
