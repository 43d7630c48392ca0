-- ===== src/Cli/Server.antt =====
-- cmd/uncut/main.go: the commands that change the node.
use uncut_core.Base.{
  if◌then◌else◌, Result, ok, err, Exec, lift, ◌>>=◌, ◌>>◌, ℕ, zero, suc, Bool, true, false, ◌&&◌,
  ◌||◌, Option, none, some, List, [], ◌∷◌, ◌++◌,
}
use uncut_core.Text.{Text, codes, is_blank, to_lower}
use uncut_core.Text.Trim.{trim_space}
use uncut_core.Text.Split.{join}
use uncut_core.Text.Decimal.{ℤ, pos, negsuc, print, itoa, atoi}
use uncut_core.Text.Base64.{base64_decode}
use uncut_core.Config.Protocols.{is_empty}
use uncut_core.Config.Ports.{default_awg_port}
use uncut_core.Nodeops.Names.{
  host_of, set_mtproto_tls_domain, set_reality_sni, rotate_paths, set_protocols,
}
use uncut_core.Nodeops.Numbers.{set_hysteria2_bandwidth, set_awg_port, sync_ip}
use uncut_core.Nodeops.Certificates.{renew_cert, change_node_domain, set_cert}
use uncut_core.Cli.{
  Call, CliError, protocols_missing, host_missing, up_not_a_number, down_not_a_number,
  port_not_a_number, port_twice, port_missing, certificate_missing, certificate_not_decoded,
  key_not_decoded, Printed, line, protocols_json, Terminal, World, cat, say, stored_command,
  filed_command, first_of,
}

-- `args[i]`; the number of arguments is checked before.
abbrev pub arg : ℕ → List Text → Text
arg n [] = []
arg zero (a ∷ more) = a
arg (suc n) (a ∷ more) = arg n more

abbrev pub number : CliError → Option ℤ → Result CliError ℤ
number wrong none = err wrong
number wrong (some n) = ok n

abbrev pub decoded : CliError → Option Text → Result CliError Text
decoded wrong none = err wrong
decoded wrong (some bytes) = ok bytes

abbrev is_zero : ℤ → Bool
is_zero (pos zero) = true
is_zero (pos (suc n)) = false
is_zero (negsuc n) = false

module _ (w : World) (c : Call) where
  unfoldable pub sync_ip_cmd : Exec Terminal CliError (Unit {0})
  sync_ip_cmd = do
    ip ← stored_command (sync_ip w.context w.answer w.is_ipv4 c.force_ip)
    say (line (codes "Server IP updated: " ++ ip) ∷ [])

  unfoldable pub renew_cert_cmd : Exec Terminal CliError (Unit {0})
  renew_cert_cmd = do
    filed_command (renew_cert w.context w.lego)
    say (line (codes "SSL/TLS certificate renewed successfully and Nginx reloaded.") ∷ [])

  unfoldable pub change_domain_cmd : Exec Terminal CliError (Unit {0})
  change_domain_cmd = do
    filed_command (change_node_domain w.context w.lego (arg 0 c.args))
    say (
        line (
          cat (
            codes "Domain successfully changed to "
            ∷ trim_space (to_lower (arg 0 c.args))
            ∷ codes " and all subscriptions updated."
            ∷ []))
        ∷ line (
            codes
              "DOMAIN in deployments/.env only seeds a fresh node; update it too so the file matches.")
        ∷ [])

  unfoldable pub set_protocols_cmd : Exec Terminal CliError (Unit {0})
  set_protocols_cmd = do
    lift (if is_empty c.protocols then err protocols_missing else ok tt)
    applied ← stored_command (set_protocols w.context c.protocols)
    say (
        if c.as_json
        then protocols_json applied ∷ []
        else line (codes "Protocols set to " ++ join (codes ", ") applied) ∷ [])

  abbrev bandwidth_line : ℤ → ℤ → Text
  bandwidth_line up down =
      if is_zero up && is_zero down
      then codes "Hysteria2 bandwidth cleared, back to BBR"
      else cat (
          codes "Hysteria2 bandwidth set: up "
          ∷ itoa up
          ∷ codes " Mbps, down "
          ∷ itoa down
          ∷ codes " Mbps"
          ∷ [])

  unfoldable pub hysteria2_bandwidth_cmd : Exec Terminal CliError (Unit {0})
  hysteria2_bandwidth_cmd = do
    up ← lift (number up_not_a_number (atoi (arg 0 c.args)))
    down ← lift (number down_not_a_number (atoi (arg 1 c.args)))
    stored_command (set_hysteria2_bandwidth w.context up down)
    say (line (bandwidth_line up down) ∷ [])

  -- The port of the argument or of the flag, not of both.
  unfoldable pub port_of : List Text → Option ℤ → Result CliError ℤ
  port_of (a ∷ more) (some port) = err port_twice
  port_of (a ∷ more) none = number port_not_a_number (atoi a)
  port_of [] (some port) = ok port
  port_of [] none = err port_missing

  abbrev port_lines : ℤ → List Printed
  port_lines port =
      if is_zero port
      then line (
          cat (
            codes "AmneziaWG port reset to the default "
            ∷ print default_awg_port
            ∷ codes "; configs rebuilt"
            ∷ []))
        ∷ []
      else line (cat (codes "AmneziaWG port set to " ∷ itoa port ∷ codes "; configs rebuilt" ∷ []))
        ∷ line (
            cat (
              codes "Open it on the host: AWGPORT="
              ∷ itoa port
              ∷ codes " deployments/host.sh"
              ∷ []))
        ∷ line (codes "wireguard:// links already issued carry the old port and must be re-issued.")
        ∷ []

  unfoldable pub set_awg_port_cmd : Exec Terminal CliError (Unit {0})
  set_awg_port_cmd = do
    port ← lift (port_of c.args c.port)
    stored_command (set_awg_port w.context port)
    say (port_lines port)

  unfoldable pub rotate_paths_cmd : Exec Terminal CliError (Unit {0})
  rotate_paths_cmd = do
    rev ← stored_command (rotate_paths w.context w.sha256 w.new_paths)
    say (
        line (
          cat (
            codes "Transport paths rotated, rev "
            ∷ rev
            ∷ codes " — every issued client link must be re-issued"
            ∷ []))
        ∷ [])

  abbrev tls_lines : Text → List Printed
  tls_lines domain =
      if is_blank domain
      then line (codes "MTProto FakeTLS disabled: the mtproxy inbound and its SNI branch are gone")
        ∷ []
      else line (codes "MTProto FakeTLS enabled: " ++ domain)
        ∷ line (codes "FakeTLS link is printed by `raw info`")
        ∷ []

  unfoldable pub set_mtproto_tls_cmd : Exec Terminal CliError (Unit {0})
  set_mtproto_tls_cmd = do
    domain ← stored_command (set_mtproto_tls_domain w.context c.domain)
    say (tls_lines domain)

  unfoldable pub sni_host : Result CliError Text
  sni_host = if is_blank c.host then first_of host_missing c.args else ok c.host

  unfoldable pub set_sni_cmd : Exec Terminal CliError (Unit {0})
  set_sni_cmd = do
    host ← lift sni_host
    rev ← stored_command (set_reality_sni w.context w.sha256 host)
    say (
        line (cat (codes "Reality SNI: " ∷ host_of host ∷ codes " — transport rev " ∷ rev ∷ []))
        ∷ line (codes "Subscriptions are regenerated; every issued client link must be re-issued")
        ∷ [])

  unfoldable pub set_cert_cmd : Exec Terminal CliError (Unit {0})
  set_cert_cmd = do
    lift
        (if is_blank c.cert_base64 || is_blank c.key_base64 then err certificate_missing else ok tt)
    cert ← lift (decoded certificate_not_decoded (base64_decode c.cert_base64))
    key ← lift (decoded key_not_decoded (base64_decode c.key_base64))
    domain ← filed_command (set_cert w.context w.pair w.covers cert key)
    say (
        line (cat (codes "Certificate installed for " ∷ domain ∷ codes " and nginx reloaded." ∷ []))
        ∷ [])
