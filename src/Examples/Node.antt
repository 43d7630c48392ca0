-- ===== src/Examples/Node.antt =====
-- The Telegram proxy, the report, the nginx server and a rebuild at concrete inputs.
use uncut_core.Base.{
  if◌then◌else◌, All, ◌==◌, contains, ok, lookup, insert, ℕ, zero, suc, ◌≡◌, refl, ◌↔◌, true, false,
  Option, none, some, [], ◌∷◌,
}
use uncut_core.Text.{Text, codes, Text-discrete, text_eq, is_blank, is_space}
use uncut_core.Text.Search.{strip_prefix, has_prefix, contains_text}
use uncut_core.Text.Encode.{hex_decode, raw_url_base64, base64_encode}
use uncut_core.Text.Trim.{trim_left, put_before, trim_right, trim_space}
use uncut_core.Links.{derive_capability}
use uncut_core.Json.{get}
use uncut_core.Store.{
  or_no_rows, get_setting, set_setting, with_hash, scan_client, scan_rows, get_clients,
}
use uncut_core.Files.{Disk, write_file_atomic, content, read_file, join_path}
use uncut_core.Files.Checked.{keep_previous, write_changed, put_back, checked, write_checked}
use uncut_core.Transport.{is_unsafe, has_unsafe, is_valid}
use uncut_core.Tproxy.{
  profiles_file, config_file, Answer, no_answer, status, has_marker, body_of, refresh_file,
  multi_path, update,
}
use uncut_core.Tproxy.SelfCheck.{
  bridge_page_marker, probe_body, page_result, probe_from, check_bridge,
}
use uncut_core.Tproxy.Laws.{update-unchanged, FirstPage, check_bridge_lem}
use uncut_core.Nginx.{GeneratorOptions}
use uncut_core.Setup.{default_options}
use uncut_core.Setup.Load.{transport_key, settings_of, save_transport, load_transport, load}
use uncut_core.Setup.Rebuild.{
  Node, Consumers, generator_options, sing_box_files, write_all, rebuild_all,
}
use uncut_core.Setup.Rebuild.Stages.{config_paths}
use uncut_core.Setup.Rebuild.Laws.{at_subscriptions, rebuild_all-Untouched}
use uncut_core.Nodeops.Doctor.{health, check_transports}
use uncut_core.Nodeops.Doctor.Report.{Host, doctor}
use uncut_core.Nodeops.Doctor.Laws.{all_pass, all_answer, check_transports_lem}
use uncut_core.Nodeops.Doctor.Laws.Fixes.{IsSound, doctor-IsSound}
use uncut_core.Examples.Data.{random_paths, node, a_store, toy_codec, a_context}
use uncut_core.Examples.Acme.{a_lego}

abbrev kept_disk : Disk
kept_disk = record {
  files = (multi_path, record { bytes = codes "proxy_for 1;"; perm = 416 }) ∷ [];
  temps = [];
  broken = λ _. false;
}

abbrev same_answer : Answer
same_answer = status 200 (some (codes "proxy_for 1;"))

nothing_new : (update no_answer same_answer kept_disk).0 ≡ false
unfolding update refresh_file body_of has_marker contains_text has_prefix strip_prefix read_file
    content lookup Text-discrete
nothing_new = refl

update-unchanged_example :
    content multi_path (update no_answer same_answer kept_disk).1 ≡ content multi_path kept_disk
update-unchanged_example = update-unchanged no_answer same_answer kept_disk multi_path nothing_new

-- The second attempt gets the page.
abbrev a_probe : ℕ → Answer
a_probe zero = no_answer
a_probe (suc k) = status 200 (some (codes "tproxy-v1.x"))

check_bridge_lem_example :
    (check_bridge a_probe (λ k. false) (λ key text. 1 ∷ []) (codes "n.io") (codes "00") ≡ ok tt) ↔ (
      (is_blank (derive_capability (λ key text. 1 ∷ []) (codes "n.io") (codes "00")) ≡ false)
      × FirstPage a_probe (λ k. false) 0 20)
check_bridge_lem_example =
    check_bridge_lem a_probe (λ k. false) (λ key text. 1 ∷ []) (codes "n.io") (codes "00")

bridge_passes :
    check_bridge a_probe (λ k. false) (λ key text. 1 ∷ []) (codes "n.io") (codes "00") ≡ ok tt
unfolding check_bridge derive_capability hex_decode trim_space trim_left trim_right put_before
    is_space probe_from probe_body page_result contains_text has_prefix strip_prefix
    bridge_page_marker base64_encode raw_url_base64
bridge_passes = refl

abbrev refuses_grpc : Text → Option Text
refuses_grpc port = if port == codes "10003" then some (codes "refused") else none

check_transports_lem_example :
    all_pass (check_transports refuses_grpc (λ port. true) node)
    ≡ all_answer refuses_grpc (λ port. true) node node.protocols
check_transports_lem_example = check_transports_lem refuses_grpc (λ port. true) node

abbrev pub a_host : Host
a_host = record {
  daemon = health 503 ((codes "nginx", true) ∷ (codes "coredns", false) ∷ []);
  configs = none;
  ip6 = none;
  ip4 = ok (codes "192.0.2.1" ∷ []);
  dial = refuses_grpc;
  now = 200;
  lego = a_lego;
  covers = λ c domain. none;
  format_date = λ t. codes "2026-01-01";
  hmac_sha256 = λ key text. 1 ∷ [];
  probe = a_probe;
  stops = λ k. false;
  backend = λ address. none;
  setup_text = λ e. codes "setup";
  bridge_text = λ e. codes "bridge";
  db_text = λ e. codes "db";
  dir_text = codes "dir";
  swap_text = codes "swap";
}

doctor-IsSound_example :
    All IsSound (doctor a_host a_context.options toy_codec random_paths a_store kept_disk).0
doctor-IsSound_example =
    doctor-IsSound a_host a_context.options toy_codec random_paths a_store kept_disk

abbrev nginx_options : GeneratorOptions
nginx_options = generator_options node a_context.options

-- The sing-box of the node refuses every configuration.
abbrev pub strict : Consumers
strict = record {
  marshal = λ j. codes "json";
  sing_box_check = λ binary d. some (codes "bad");
  nginx_check = λ d. none;
}

abbrev pub a_node : Node
a_node = record { store = a_store; disk = kept_disk }

abbrev a_subscription : Text
a_subscription = codes "/var/www/cdn/subs/0a"

elsewhere : contains (config_paths a_context.options) a_subscription ≡ false
unfolding default_options join_path profiles_file config_file Text-discrete
elsewhere = refl

stops_early :
    at_subscriptions (rebuild_all strict toy_codec a_context.options random_paths none a_node).0
    ≡ false
unfolding rebuild_all load load_transport save_transport get get_setting set_setting or_no_rows
    lookup insert settings_of write_all sing_box_files write_checked write_changed checked
    write_file_atomic read_file content join_path default_options Text-discrete get_clients
    scan_rows scan_client with_hash transport_key keep_previous put_back is_valid has_unsafe
    is_unsafe
stops_early = refl

rebuild_all-Untouched_example :
    content a_subscription
      (rebuild_all strict toy_codec a_context.options random_paths none a_node).1.disk
    ≡ content a_subscription kept_disk
rebuild_all-Untouched_example =
    rebuild_all-Untouched strict toy_codec a_context.options random_paths none a_node a_subscription
      elsewhere stops_early
