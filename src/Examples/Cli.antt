-- ===== src/Examples/Cli.antt =====
-- The binary, the commands on certificates and the rebuild of the daemon at concrete inputs.
use uncut_core.Base.{
  contains, Distinct, ok, lookup, insert, erase, ◌≡◌, refl, true, false, none, some, [], ◌∷◌,
}
use uncut_core.Text.{codes, Text-discrete, text_eq, is_lower, is_upper, is_digit}
use uncut_core.Text.Base64.{sextet_of, decode_groups, without_line_ends, base64_decode}
use uncut_core.Core.IpSync.{server_ip}
use uncut_core.Store.{
  or_no_rows, get_setting, set_setting, with_hash, scan_client, scan_rows, get_clients,
}
use uncut_core.Setup.{default_options, get}
use uncut_core.Setup.Protocols.{protocols_key, protocols_explicit_key}
use uncut_core.Updater.{sing_box_bin, not_gzip}
use uncut_core.Supervisor.{new_process, new_supervisor, store_at, add_process, start_process}
use uncut_core.Nodeops.Certificates.{set_cert}
use uncut_core.Nodeops.Certificates.Laws.{SetCertCases, set_cert_lem}
use uncut_core.Nodeops.Daemon.Rebuild.{Machine, logs_dir, live_specs, restart_all, rebuild}
use uncut_core.Cli.{set_protocols_verb, Call, Terminal, World}
use uncut_core.Cli.Run.{gated}
use uncut_core.Cli.Keeps.{free_keys}
use uncut_core.Cli.Keeps.Gate.{unconfirmed-Keeps}
use uncut_core.Examples.Data.{random_paths, a_store, toy_curve, a_draw, toy_codec, a_context}
use uncut_core.Examples.Acme.{a_lego}
use uncut_core.Examples.Node.{a_host, a_node}
use uncut_core.Transport.{is_unsafe, has_unsafe, is_valid}
use uncut_core.Text.Search.{strip_prefix, has_prefix}
use uncut_core.Files.{
  write_file_atomic, content, read_file, join_path, name_in, names_in, remove_file,
}
use uncut_core.Files.Moves.{stats}
use uncut_core.Files.Checked.{keep_previous, write_changed, put_back, checked, write_checked}
use uncut_core.Core.Subscriptions.Files.{
  write_subscriptions, sub_hashes, sweep, regenerate_all_subscriptions,
}
use uncut_core.Nginx.{name_of, routes, generate_stream_config}
use uncut_core.Nginx.Server.{files}
use uncut_core.Tproxy
use uncut_core.Tproxy.{ensure_site_index, profiles_file, config_file}
use uncut_core.Setup.Load.{transport_key, settings_of, save_transport, load_transport, load}
use uncut_core.Setup.Rebuild.{
  Consumers, generator_options, reload_actions, sing_box_files, write_subscription_files,
  write_tproxy, write_nginx, write_all, rebuild_all,
}
use uncut_core.Setup.Rebuild.Stages.{config_paths}
use uncut_core.Setup.Rebuild.Renders.{IsRendered, AllOutside, rebuild_all-IsRendered}
use uncut_core.Supervisor.Control.{
  same_spec, respec_at, respec, restart_signal_at, restart_signal, restart_finish, Waiting,
  restart_process,
}
use uncut_core.Nodeops.Daemon.{no_probe, mtproto_spec, singbox_spec, with_changed, respec_all}

abbrev a_world : World
a_world = record {
  context = a_context;
  version = codes "3.2.0";
  error_text = λ e. codes "error";
  opened = λ s. some s;
  sha256 = λ bytes. bytes;
  hmac_sha256 = λ key text. 1 ∷ [];
  x25519 = toy_curve;
  draw = a_draw;
  token = 3 ∷ [];
  now = 9;
  new_paths = random_paths;
  answer = λ endpoint. some (codes "192.0.2.7");
  is_ipv4 = λ text. true;
  lego = a_lego;
  pair = λ cert key. ok (codes "leaf");
  covers = λ leaf domain. none;
  download = λ version. not_gzip;
  runs = λ file. true;
  version_output = none;
  format_time = λ t. codes "2026-01-01T00:00:00Z";
  host = a_host;
}

-- A call with one protocol and without --yes.
abbrev a_call : Call
a_call = record {
  args = [];
  yes = false;
  as_json = false;
  inherit = false;
  name = [];
  force_ip = [];
  domain = [];
  host = [];
  cert_base64 = codes "Q0VSVA==";
  key_base64 = codes "S0VZ";
  protocols = codes "vless-ws" ∷ [];
  port = none;
}

abbrev a_terminal : Terminal
a_terminal = record { node = a_node; printed = [] }

decoded_cert : base64_decode a_call.cert_base64 ≡ some (codes "CERT")
unfolding base64_decode decode_groups without_line_ends sextet_of is_lower is_upper is_digit
decoded_cert = refl

decoded_key : base64_decode a_call.key_base64 ≡ some (codes "KEY")
unfolding base64_decode decode_groups without_line_ends sextet_of is_lower is_upper is_digit
decoded_key = refl

no_padding : base64_decode (codes "S0V") ≡ none
unfolding base64_decode decode_groups without_line_ends sextet_of is_lower is_upper is_digit
no_padding = refl

another_key : contains free_keys (codes "domain") ≡ false
unfolding server_ip protocols_key protocols_explicit_key Text-discrete
another_key = refl

domain_held : lookup (codes "domain") a_store.settings ≡ some (codes "n.example")
unfolding lookup Text-discrete
domain_held = refl

unconfirmed-Keeps_example :
    get (codes "domain") (gated a_world set_protocols_verb a_call a_terminal).1.node.store
    ≡ codes "n.example"
unconfirmed-Keeps_example =
    unconfirmed-Keeps a_world a_call set_protocols_verb (codes "domain") (codes "n.example")
      a_terminal another_key refl refl domain_held refl

set_cert_lem_example :
    SetCertCases a_context
      (λ cert key. ok (codes "leaf"))
      (λ leaf domain. none)
      (codes "CERT")
      (codes "KEY")
      a_node
      (set_cert a_context
        (λ cert key. ok (codes "leaf"))
        (λ leaf domain. none)
        (codes "CERT")
        (codes "KEY")
        a_node)
set_cert_lem_example =
    set_cert_lem a_context (λ cert key. ok (codes "leaf")) (λ leaf domain. none) (codes "CERT")
      (codes "KEY") a_node

-- Every check of this node passes.
abbrev lenient : Consumers
lenient = record {
  marshal = λ j. codes "json";
  sing_box_check = λ binary d. none;
  nginx_check = λ d. none;
}

paths_apart : Distinct (config_paths a_context.options)
unfolding default_options join_path profiles_file config_file Text-discrete
paths_apart = (refl, (refl, (refl, (refl, (refl, (refl, (refl, tt)))))))

all_outside : AllOutside lenient toy_codec a_context.options random_paths
unfolding default_options join_path profiles_file config_file has_prefix strip_prefix
all_outside = (refl, (refl, (refl, (refl, (refl, (refl, (refl, tt)))))))

ends_well : (rebuild_all lenient toy_codec a_context.options random_paths none a_node).0 ≡ ok []
unfolding rebuild_all load load_transport save_transport get get_setting set_setting or_no_rows
    lookup insert settings_of write_all sing_box_files write_checked write_changed checked
    write_file_atomic read_file content join_path default_options Text-discrete get_clients
    scan_rows scan_client with_hash transport_key keep_previous put_back is_valid has_unsafe
    is_unsafe write_nginx files generate_stream_config routes name_of write_tproxy ensure_site_index
    profiles_file config_file stats write_subscription_files regenerate_all_subscriptions
    write_subscriptions sub_hashes sweep names_in name_in strip_prefix generator_options
    reload_actions remove_file erase Tproxy.files
ends_well = refl

rebuild_all-IsRendered_example :
    IsRendered lenient toy_codec a_context.options random_paths a_node
      (rebuild_all lenient toy_codec a_context.options random_paths none a_node).1
rebuild_all-IsRendered_example =
    rebuild_all-IsRendered lenient toy_codec a_context.options random_paths none a_node paths_apart
      all_outside ends_well

abbrev a_machine : Machine
a_machine = record {
  node = a_node;
  sup = add_process (no_probe (codes "coredns") (codes "coredns") [] []) (new_supervisor 5);
}

abbrev quiet : Waiting
quiet = record { meanwhile = λ name sup. sup; starts = λ name. true }

-- The rebuild ends well.
restarts_coredns :
    (rebuild lenient toy_codec a_context.options quiet random_paths random_paths
      (codes "coredns" ∷ [])
      a_machine).0
    ≡ ok (reload_actions (some a_machine.sup) true)
unfolding rebuild rebuild_all load load_transport save_transport get get_setting set_setting
    or_no_rows lookup insert settings_of write_all sing_box_files write_checked write_changed
    checked write_file_atomic read_file content join_path default_options Text-discrete get_clients
    scan_rows scan_client with_hash transport_key keep_previous put_back is_valid has_unsafe
    is_unsafe write_nginx files generate_stream_config routes name_of write_tproxy ensure_site_index
    profiles_file config_file stats write_subscription_files regenerate_all_subscriptions
    write_subscriptions sub_hashes sweep names_in name_in strip_prefix generator_options
    reload_actions remove_file erase Tproxy.files live_specs logs_dir singbox_spec mtproto_spec
    respec_all respec respec_at with_changed same_spec restart_all restart_process restart_signal
    restart_signal_at restart_finish start_process add_process new_supervisor new_process store_at
    sing_box_bin protocols_key
restarts_coredns = refl
