-- ===== src/Cli/Keeps/Upkeep.antt =====
-- cmd/uncut/main.go: the commands on the node that have no gate keep the other settings.
use uncut_core.Base.{
  if◌then◌else◌, Bool-cases, ◌==◌, Result, ok, err, lift, reads, ◌>>◌, Result-cases, lookup, ◌≡◌,
  inl, inr, true, false, ◌||◌, [], ◌∷◌, arith,
}
use uncut_core.Text.{Text, codes, text_eq, is_blank}
use uncut_core.Text.Decimal.{atoi}
use uncut_core.Config.{Settings}
use uncut_core.Config.Protocols.{clean_protocols, is_empty}
use uncut_core.Core.IpSync.{server_ip, get_public_ipv4, sync_from, sync_server_ip}
use uncut_core.Updater.{current_version}
use uncut_core.Store.{Store, get_clients}
use uncut_core.Setup.{SetupError}
use uncut_core.Setup.Protocols.{protocols_key, protocols_explicit_key}
use uncut_core.Setup.Load.{load}
use uncut_core.Setup.Bootstrap.Keeps.{Holds, Keeps, bind-Keeps, set_setting-Keeps}
use uncut_core.Setup.Bootstrap.Steps.{load-Keeps}
use uncut_core.Nodeops.{Context, from_db, loaded_settings, reloaded, save, save_all}
use uncut_core.Nodeops.Reports.{get_info}
use uncut_core.Nodeops.Names.{resolved_names, protocol_settings, set_protocols}
use uncut_core.Nodeops.Numbers.{is_negative, cap_text, set_hysteria2_bandwidth, detected, sync_ip}
use uncut_core.Nodeops.Certificates.{renew_cert}
use uncut_core.Nodeops.Doctor.Report.{report_of, doctor}
use uncut_core.Cli.{Call, protocols_missing, up_not_a_number, down_not_a_number, World, say}
use uncut_core.Cli.Server.{
  arg, number, sync_ip_cmd, renew_cert_cmd, set_protocols_cmd, hysteria2_bandwidth_cmd,
}
use uncut_core.Cli.Reports.{
  doctor_result, report_lines, checked, doctor_cmd, expires_of, info_cmd, version_cmd, installed,
  switched, singbox_version_cmd,
}
use uncut_core.Cli.Keeps.{
  KeepsTerminal, terminal-bind, say-Keeps, command-say, filed-say, lift-then, reloaded-Keeps,
  reloaded-pure-Keeps, loaded_settings-Keeps, save_all-Keeps, save-Keeps, renew_cert-Keeps,
}

module _ (key v : Text) (w : World) (c : Call) (b : is_blank v ≡ false) where
  abbrev k : Context
  k = w.context

  ip_found-Keeps :
      (server_ip == key) ≡ false
      → Keeps key v (λ s. detected k (sync_server_ip w.answer w.is_ipv4 true s))
  unfolding sync_server_ip sync_from
  ip_found-Keeps ne s h = elim (Result-cases (get_public_ipv4 w.answer w.is_ipv4)) [
    | inl (ip, e) ↦ rw e (ground (arith, ne, h, set_setting-Keeps key v server_ip ip ne s h))
    | inr (x, e) ↦ rw e h
  ]

  pub sync_ip-Keeps : (server_ip == key) ≡ false → KeepsTerminal key v (sync_ip_cmd w c)
  unfolding sync_ip_cmd sync_ip
  sync_ip-Keeps ne = command-say key v (sync_ip k w.answer w.is_ipv4 c.force_ip) _ (λ s h.
      elim (Bool-cases (is_blank c.force_ip)) [
        | inl e ↦ rw e (
            bind-Keeps key v (λ s'. detected k (sync_server_ip w.answer w.is_ipv4 true s')) _
              (ip_found-Keeps ne) (λ ip. reloaded-pure-Keeps key v k ip) s h)
        | inr e ↦ rw e (
            bind-Keeps key v (save server_ip c.force_ip) _
              (save-Keeps key v server_ip c.force_ip ne)
              (λ _. reloaded-pure-Keeps key v k c.force_ip) s h)
      ])

  pub renew-Keeps : KeepsTerminal key v (renew_cert_cmd w c)
  unfolding renew_cert_cmd
  renew-Keeps = filed-say key v (renew_cert k w.lego) _ (renew_cert-Keeps key v k w.lego b)

  pub set_protocols-Keeps :
      (protocols_key == key) ≡ false
      → (protocols_explicit_key == key) ≡ false
      → KeepsTerminal key v (set_protocols_cmd w c)
  unfolding set_protocols_cmd set_protocols lookup
  set_protocols-Keeps p e =
      lift-then key v (if is_empty c.protocols then err protocols_missing else ok tt) _ (λ _.
        command-say key v (set_protocols k c.protocols) _ (
          bind-Keeps key v (lift (resolved_names k (clean_protocols c.protocols))) _ (λ s h. h)
            (λ names.
              bind-Keeps key v (save_all (protocol_settings k names)) _
                (save_all-Keeps key v (protocol_settings k names) (ground (arith, p, e)))
                (λ _. reloaded-pure-Keeps key v k names))))

  pub bandwidth-Keeps :
      (codes "hysteria2_up_mbps" == key) ≡ false
      → (codes "hysteria2_down_mbps" == key) ≡ false
      → KeepsTerminal key v (hysteria2_bandwidth_cmd w c)
  unfolding hysteria2_bandwidth_cmd set_hysteria2_bandwidth lookup
  bandwidth-Keeps p q = lift-then key v (number up_not_a_number (atoi (arg 0 c.args))) _ (λ up.
      lift-then key v (number down_not_a_number (atoi (arg 1 c.args))) _ (λ down.
        command-say key v (set_hysteria2_bandwidth k up down) _ (λ s h.
          elim (Bool-cases (is_negative up || is_negative down)) [
            | inl e ↦ rw e h
            | inr e ↦ rw e (
                bind-Keeps key v
                  (save_all (
                    (codes "hysteria2_up_mbps", cap_text up)
                    ∷ (codes "hysteria2_down_mbps", cap_text down)
                    ∷ []))
                  _ (save_all-Keeps key v _ (ground (arith, p, q))) (λ _. reloaded-Keeps key v k) s
                  h)
          ])))

  pub info-Keeps : KeepsTerminal key v (info_cmd w c)
  unfolding info_cmd get_info
  info-Keeps t =
      command-say key v
        (get_info k w.sha256 w.hmac_sha256 (expires_of w c t.node.disk)
          (current_version w.version_output))
        _
        (bind-Keeps key v (loaded_settings k) _ (loaded_settings-Keeps key v k b)
          (λ s. bind-Keeps key v (reads (λ s. from_db (get_clients s))) _ (λ s h. h) (λ cs s h. h)))
        t

  checked-Keeps : KeepsTerminal key v (checked w c)
  unfolding doctor
  checked-Keeps t h =
      report_pair (load k.codec k.options k.paths t.node.store)
        (load-Keeps key v k.codec k.options k.paths b t.node.store h)
    where
      report_pair :
          (r : Result SetupError Settings × Store)
          → Holds key v r.1
          → Holds key v (report_of w.host k.options t.node.disk r).1
      report_pair (ok s, st) held = held
      report_pair (err e, st) held = held

  pub doctor-Keeps : KeepsTerminal key v (doctor_cmd w c)
  unfolding doctor_cmd
  doctor-Keeps =
      terminal-bind key v (checked w c) (λ ks. say (report_lines w c ks) >> lift (doctor_result ks))
        checked-Keeps
        (λ ks.
          terminal-bind key v (say (report_lines w c ks)) (λ _. lift (doctor_result ks))
            (say-Keeps key v (report_lines w c ks)) (λ _ t h. h))

  switched-Keeps : KeepsTerminal key v (λ t. say (switched w c (reloaded k t.node.store).0) t)
  switched-Keeps t h = say-Keeps key v (switched w c (reloaded k t.node.store).0) t h

  pub singbox_version-Keeps :
      (version : Text) → KeepsTerminal key v (singbox_version_cmd w c version)
  unfolding singbox_version_cmd
  singbox_version-Keeps version =
      terminal-bind key v (say _) _ (say-Keeps key v _)
        (λ _. terminal-bind key v (installed w c _) _ (λ t h. h) (λ _. switched-Keeps))

  pub version-Keeps : KeepsTerminal key v (version_cmd w c)
  unfolding version_cmd say
  version-Keeps t h = h
