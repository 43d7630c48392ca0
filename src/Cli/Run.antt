-- ===== src/Cli/Run.antt =====
-- cmd/uncut/main.go: the commands of the root, their gate, and a run of the binary.
use uncut_core.Base.{
  leb, eqb, if◌then◌else◌, length, err, Exec, ℕ, Bool, true, false, not, ◌&&◌, Option, none, some,
}
use uncut_core.Text.{Text, codes}
use uncut_core.Store.{Store}
use uncut_core.Cli.{
  Verb, version_verb, singbox_version_verb, add_verb, del_verb, list_verb, sync_ip_verb,
  renew_cert_verb, change_domain_verb, info_verb, doctor_verb, rotate_paths_verb, rotate_sub_verb,
  set_protocols_verb, set_client_protocols_verb, set_mtproto_tls_verb, set_sni_verb, set_cert_verb,
  hysteria2_bandwidth_verb, set_awg_port_verb, Call, CliError, wrong_arguments, store_not_opened,
  needs_yes, Terminal, World,
}
use uncut_core.Cli.Clients.{
  add_client_cmd, rotate_sub_cmd, del_client_cmd, list_clients_cmd, set_client_protocols_cmd,
}
use uncut_core.Cli.Server.{
  arg, sync_ip_cmd, renew_cert_cmd, change_domain_cmd, set_protocols_cmd, hysteria2_bandwidth_cmd,
  set_awg_port_cmd, rotate_paths_cmd, set_mtproto_tls_cmd, set_sni_cmd, set_cert_cmd,
}
use uncut_core.Cli.Reports.{doctor_cmd, info_cmd, version_cmd, singbox_version_cmd}

-- The commands that `breaking` wraps.
unfoldable pub is_breaking : Verb → Bool
is_breaking del_verb = true
is_breaking change_domain_verb = true
is_breaking rotate_paths_verb = true
is_breaking rotate_sub_verb = true
is_breaking set_mtproto_tls_verb = true
is_breaking set_sni_verb = true
is_breaking set_awg_port_verb = true
is_breaking v = false

unfoldable pub verb_name : Verb → Text
verb_name version_verb = codes "version"
verb_name singbox_version_verb = codes "singbox-version"
verb_name add_verb = codes "add"
verb_name del_verb = codes "del"
verb_name list_verb = codes "list"
verb_name sync_ip_verb = codes "sync-ip"
verb_name renew_cert_verb = codes "renew-cert"
verb_name change_domain_verb = codes "change-domain"
verb_name info_verb = codes "info"
verb_name doctor_verb = codes "doctor"
verb_name rotate_paths_verb = codes "rotate-paths"
verb_name rotate_sub_verb = codes "rotate-sub"
verb_name set_protocols_verb = codes "set-protocols"
verb_name set_client_protocols_verb = codes "set-client-protocols"
verb_name set_mtproto_tls_verb = codes "set-mtproto-tls"
verb_name set_sni_verb = codes "set-sni"
verb_name set_cert_verb = codes "set-cert"
verb_name hysteria2_bandwidth_verb = codes "hysteria2-bandwidth"
verb_name set_awg_port_verb = codes "set-awg-port"

-- `RunE` of each command, before the gate.
unfoldable pub handle : World → Verb → Call → Exec Terminal CliError (Unit {0})
handle w version_verb c = version_cmd w c
handle w singbox_version_verb c = singbox_version_cmd w c (arg 0 c.args)
handle w add_verb c = add_client_cmd w c
handle w del_verb c = del_client_cmd w c
handle w list_verb c = list_clients_cmd w c
handle w sync_ip_verb c = sync_ip_cmd w c
handle w renew_cert_verb c = renew_cert_cmd w c
handle w change_domain_verb c = change_domain_cmd w c
handle w info_verb c = info_cmd w c
handle w doctor_verb c = doctor_cmd w c
handle w rotate_paths_verb c = rotate_paths_cmd w c
handle w rotate_sub_verb c = rotate_sub_cmd w c
handle w set_protocols_verb c = set_protocols_cmd w c
handle w set_client_protocols_verb c = set_client_protocols_cmd w c
handle w set_mtproto_tls_verb c = set_mtproto_tls_cmd w c
handle w set_sni_verb c = set_sni_cmd w c
handle w set_cert_verb c = set_cert_cmd w c
handle w hysteria2_bandwidth_verb c = hysteria2_bandwidth_cmd w c
handle w set_awg_port_verb c = set_awg_port_cmd w c

-- The reload finds the files that there are.
abbrev pub with_disk : World → Terminal → World
with_disk w t = record w { context = record w.context { disk = t.node.disk } }

unfoldable pub gated : World → Verb → Call → Exec Terminal CliError (Unit {0})
gated w v c t =
    if is_breaking v && not c.yes
    then (err (needs_yes (verb_name v)), t)
    else handle (with_disk w t) v c t

-- The `Args` of each command; one without takes any number.
unfoldable pub args_fit : Verb → ℕ → Bool
args_fit singbox_version_verb n = eqb n 1
args_fit change_domain_verb n = eqb n 1
args_fit hysteria2_bandwidth_verb n = eqb n 2
args_fit add_verb n = leb n 1
args_fit del_verb n = leb n 1
args_fit rotate_sub_verb n = leb n 1
args_fit set_client_protocols_verb n = leb n 1
args_fit set_awg_port_verb n = leb n 1
args_fit v n = true

unfoldable pub skips_store : Verb → Bool
skips_store version_verb = true
skips_store singbox_version_verb = true
skips_store v = false

abbrev on_opened : World → Verb → Call → Option Store → Exec Terminal CliError (Unit {0})
on_opened w v c none t = (err store_not_opened, t)
on_opened w v c (some s) t = gated w v c (record t { node = record t.node { store = s } })

-- The arguments are counted before the store is opened. The exit code is 0 where the result is ok.
unfoldable pub run : World → Verb → Call → Exec Terminal CliError (Unit {0})
run w v c t =
    if not (args_fit v (length c.args))
    then (err wrong_arguments, t)
    else if skips_store v
    then gated w v c t
    else on_opened w v c (w.opened t.node.store) t
