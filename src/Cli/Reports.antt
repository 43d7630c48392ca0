-- ===== src/Cli/Reports.antt =====
-- cmd/uncut/main.go: the report of the doctor, the state of the node, and the versions.
use uncut_core.Base.{
  ltb, if◌then◌else◌, length, Result, ok, err, Exec, lift, ◌>>=◌, ◌>>◌, ℕ, zero, suc, ◌-◌, Option,
  none, some, List, [], ◌∷◌, ◌++◌,
}
use uncut_core.Text.{Text, codes, is_blank}
use uncut_core.Text.Search.{trim_prefix}
use uncut_core.Text.Split.{join}
use uncut_core.Text.Decimal.{print}
use uncut_core.Config.{Settings}
use uncut_core.Nodeops.Doctor.Report.{doctor, failed}
use uncut_core.Files.{Disk}
use uncut_core.Acme.{Certificate, certificate}
use uncut_core.Updater.{volume_bin, current_version, UpdateError, install}
use uncut_core.Nodeops.{NodeError, reloaded}
use uncut_core.Nodeops.Reports.{Info, get_info}
use uncut_core.Nodeops.Certificates.{manager_of}
use uncut_core.Nodeops.Doctor.{Check}
use uncut_core.Cli.{
  Call, CliError, checks_failed, install_failed, Printed, line, checks_json, info_json, Terminal,
  World, cat, say, stored_command,
}

abbrev column : ℕ
column = 14

abbrev blanks : ℕ → Text
blanks zero = []
blanks (suc n) = b' ' ∷ blanks n

-- `%-14s`
unfoldable pub in_column : Text → Text
in_column t = t ++ blanks (column - length t)

unfoldable pub passed : List Check → ℕ
passed [] = 0
passed (k ∷ ks) = let rest = passed ks in if k.pass then suc rest else rest

abbrev fix_lines : Check → List Printed
fix_lines k =
    if is_blank k.fix
    then []
    else line (cat (in_column [] ∷ codes "       fix: " ∷ k.fix ∷ [])) ∷ []

abbrev verdict : Check → Text
verdict k = if k.pass then codes "PASS" else codes "FAIL"

unfoldable pub check_lines : List Check → List Printed
check_lines [] = []
check_lines (k ∷ ks) =
    line
      (cat (in_column (k.name ++ codes ":") ∷ codes " " ∷ verdict k ∷ codes "  " ∷ k.detail ∷ []))
    ∷ (fix_lines k ++ check_lines ks)

unfoldable pub doctor_result : List Check → Result CliError (Unit {0})
doctor_result ks = if ltb 0 (failed ks) then err (checks_failed (failed ks) (length ks)) else ok tt

abbrev result_line : List Check → Text
result_line ks =
    cat (codes "result: " ∷ print (passed ks) ∷ codes "/" ∷ print (length ks) ∷ codes " PASS" ∷ [])

abbrev pub info_lines : Text → Info → List Printed
info_lines version i =
    line (codes "version:       " ++ version)
    ∷ line (codes "tag:           " ++ i.tag)
    ∷ line (codes "domain:        " ++ i.domain)
    ∷ line (codes "transport rev: " ++ i.transport_rev)
    ∷ line (codes "protocols:     " ++ join (codes ", ") i.protocols)
    ∷ line (codes "clients:       " ++ print i.clients)
    ∷ line (codes "cert expires:  " ++ i.cert_expires)
    ∷ ((if is_blank i.web_proxy_url
          then []
          else line (codes "tg web proxy:  " ++ i.web_proxy_url)
            ∷ line (codes "bridge page:   " ++ i.bridge_url)
            ∷ [])
        ++ ((if is_blank i.mtproto_url
              then line
                  (codes "mtproto:       FakeTLS off (raw set-mtproto-tls --domain <third-party>)")
                ∷ []
              else line (codes "mtproto:       " ++ i.mtproto_url)
                ∷ line (codes "mtproto fake:  " ++ i.mtproto_tls_domain)
                ∷ [])
            ++ ((if is_blank i.singbox_version
                  then []
                  else line (codes "singbox:       " ++ i.singbox_version) ∷ [])
                ++ (line (codes "doh:           " ++ i.doh_url) ∷ []))))

module _ (w : World) (c : Call) where
  abbrev pub report_lines : List Check → List Printed
  report_lines ks =
      if c.as_json then checks_json ks ∷ [] else check_lines ks ++ (line (result_line ks) ∷ [])

  abbrev pub checked : Exec Terminal CliError (List Check)
  checked t =
      let r =
        doctor w.host w.context.options w.context.codec w.context.paths t.node.store t.node.disk in
      (ok r.0, record t { node = record t.node { store = r.1 } })

  -- The report is printed before the command fails.
  unfoldable pub doctor_cmd : Exec Terminal CliError (Unit {0})
  doctor_cmd = do ks ← checked; say (report_lines ks); lift (doctor_result ks)

  abbrev expires_text : Option Certificate → Text
  expires_text none = []
  expires_text (some k) = w.format_time k.not_after

  abbrev pub expires_of : Disk → Settings → Text
  expires_of d s = expires_text (certificate w.lego (manager_of w.context.options s.domain s) d)

  abbrev found_info : Exec Terminal CliError Info
  found_info t =
      stored_command
        (get_info w.context w.sha256 w.hmac_sha256 (expires_of t.node.disk)
          (current_version w.version_output))
        t

  unfoldable pub info_cmd : Exec Terminal CliError (Unit {0})
  info_cmd = do i ← found_info; say (if c.as_json then info_json i ∷ [] else info_lines w.version i)

  unfoldable pub version_cmd : Exec Terminal CliError (Unit {0})
  version_cmd = say (line w.version ∷ [])

  abbrev pub installed : Exec Disk UpdateError (Unit {0}) → Exec Terminal CliError (Unit {0})
  installed f t =
      let r = f t.node.disk in
      (
        elim r.0 [ ok u ↦ ok tt | err e ↦ err (install_failed e) ],
        record t { node = record t.node { disk = r.1 } },
      )

  abbrev pub switched : Result NodeError (Unit {0}) → List Printed
  switched (ok _) = line (codes "Sing-box installed and restarted onto the new binary.") ∷ []
  switched (err e) = line (codes "Sing-box installed; not switched yet: " ++ w.error_text e) ∷ []

  -- A reload that fails is reported, and is no failure of the command.
  unfoldable pub singbox_version_cmd : Text → Exec Terminal CliError (Unit {0})
  singbox_version_cmd version = do
    say (
        line (
          cat (
            codes "Downloading and installing "
            ∷ trim_prefix (codes "v") version
            ∷ codes "..."
            ∷ []))
        ∷ [])
    installed (
        install w.runs (volume_bin w.context.options.install_dir)
          (w.context.options.install_dir ++ codes "/bin")
          (w.download (trim_prefix (codes "v") version)))
    λ t. say (switched (reloaded w.context t.node.store).0) t
