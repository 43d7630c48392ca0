-- ===== src/Nodeops/Doctor/Report.antt =====
-- internal/nodeops/doctor.go: the whole report.
use uncut_core.Base.{
  eqb, if◌then◌else◌, length, contains, Result, ok, err, ℕ, suc, ◌*◌, ◌^◌, Bool, not, ◌&&◌, Option,
  none, some, List, [], ◌∷◌, ◌++◌,
}
use uncut_core.Text.{Text, codes, text_eq, is_blank}
use uncut_core.Text.Encode.{Bytes}
use uncut_core.Text.Decimal.{ℤ, print, itoa}
use uncut_core.Config.{Client, Settings}
use uncut_core.Config.Protocols.{hysteria2}
use uncut_core.Transport.{RandomPaths}
use uncut_core.Store.{DbError, Store, get_clients}
use uncut_core.Files.{read_dir, Disk, read_file, names_in}
use uncut_core.Acme.{Manager, Certificate, Lego, sub_time, quotient, certificate}
use uncut_core.Tproxy.{default_backend, files, Answer}
use uncut_core.Tproxy.SelfCheck.{BridgeError, check_bridge}
use uncut_core.Setup.{SetupError, Options, certs_dir}
use uncut_core.Setup.Load.{TransportCodec, load}
use uncut_core.Nodeops.Doctor.{
  Check, good, bad, Health, check_daemon, check_configs, check_dns, check_ports, check_transports,
}
use uncut_core.Nodeops.Doctor.Proc.{udp_listens, below, check_kernel_network, check_swap}

-- What the probes find, and the texts of the errors of the parts that they call.
pub record Host : Type 0 where
  pub daemon : Health
  pub configs : Option Text
  pub ip6 : Option (List Text)
  pub ip4 : Result Text (List Text)
  pub dial : Text → Option Text
  pub now : ℕ
  pub lego : Lego
  pub covers : Certificate → Text → Option Text
  pub format_date : ℕ → Text
  pub hmac_sha256 : Bytes → Bytes → Bytes
  pub probe : ℕ → Answer
  pub stops : ℕ → Bool
  pub backend : Text → Option Text
  pub setup_text : SetupError → Text
  pub bridge_text : BridgeError → Text
  pub db_text : DbError → Text
  pub dir_text : Text
  pub swap_text : Text

abbrev day : ℕ
day = 86400 * 10 ^ 9

module _ (h : Host) (opts : Options) where
  abbrev manager : Settings → Manager
  manager s = record {
    domain = s.domain;
    email = s.email;
    certs_dir = certs_dir opts;
    web_root = opts.web_root;
  }

  abbrev days_left : Certificate → ℤ
  days_left c = quotient (sub_time c.not_after h.now) day

  abbrev expiry : Certificate → Text
  expiry c =
      codes "expires "
      ++ (h.format_date c.not_after ++ (codes ", " ++ (itoa (days_left c) ++ codes " days left")))

  abbrev leaf_check : Text → Option Certificate → Check
  leaf_check domain none =
      bad (codes "certificate") (codes "not issued")
        (codes "check the DNS A record and that port 80 is reachable; see raw renew-cert")
  leaf_check domain (some c) = elim (h.covers c domain) [
    | some e ↦ bad (codes "certificate") e (codes "raw renew-cert")
    | none ↦
        if below (days_left c) 14
        then bad (codes "certificate") (expiry c) (codes "raw renew-cert")
        else good (codes "certificate") (expiry c)
  ]

  unfoldable pub check_certificate : Settings → Disk → Check
  check_certificate s d = leaf_check s.domain (certificate h.lego (manager s) d)

  abbrev backend_check : Option Text → Check
  backend_check (some e) = bad (codes "tg bridge") e (codes "check mtproto-proxy.log")
  backend_check none = good (codes "tg bridge") (codes "page and backend answer")

  abbrev bridge_check : Result BridgeError (Unit {0}) → Check
  bridge_check (err e) = bad (codes "tg bridge") (h.bridge_text e) (codes "check tproxy-server.log")
  bridge_check (ok _) = backend_check (h.backend default_backend)

  unfoldable pub check_tg_bridge : Settings → Check
  check_tg_bridge s =
      bridge_check (check_bridge h.probe h.stops h.hmac_sha256 s.domain s.webproxy_secret)

  abbrev counted : ℕ → ℕ → Text
  counted files clients =
      print files ++ (codes " files for " ++ (print clients ++ codes " clients"))

  abbrev files_check : ℕ → ℕ → Check
  files_check files clients =
      if eqb files clients
      then good (codes "subscriptions") (counted files clients)
      else bad (codes "subscriptions") (counted files clients)
          (codes "restart the container to trigger a rebuild")

  abbrev clients_check : Disk → Result DbError (List Client) → Check
  clients_check d (err e) = bad (codes "subscriptions") (h.db_text e) []
  clients_check d (ok clients) =
      if d.broken (read_dir opts.subs_dir)
      then bad (codes "subscriptions") (opts.subs_dir ++ (codes ": " ++ h.dir_text))
          (codes "raw menu: rebuild, or restart the container")
      else files_check (length (names_in opts.subs_dir d.files)) (length clients)

  unfoldable pub check_subscriptions : Store → Disk → Check
  check_subscriptions st d = clients_check d (get_clients st)

  unfoldable pub check_hysteria_bandwidth : Settings → Check
  check_hysteria_bandwidth s =
      if not (contains s.protocols hysteria2)
      then good (codes "hysteria2 bandwidth") (codes "hysteria2 disabled")
      else if not (is_blank s.hysteria2_up_mbps) && not (is_blank s.hysteria2_down_mbps)
      then good (codes "hysteria2 bandwidth") (
          codes "brutal caps: up "
          ++ (s.hysteria2_up_mbps
              ++ (codes " Mbps, down " ++ (s.hysteria2_down_mbps ++ codes " Mbps"))))
      else good (codes "hysteria2 bandwidth") (codes "uncapped (BBR fallback)")

  unfoldable pub checks_of : Settings → Store → Disk → List Check
  checks_of s st d =
      check_daemon h.daemon
      ∷ check_configs h.configs
      ∷ (check_dns h.ip6 h.ip4 s.domain s.ip
          ++ (check_ports h.dial (udp_listens d)
              ++ (check_certificate s d
                  ∷ (check_transports h.dial (udp_listens d) s
                      ++ (check_tg_bridge s
                          ∷ check_subscriptions st d
                          ∷ (check_kernel_network d
                              ++ (check_hysteria_bandwidth s
                                  ∷ check_swap h.swap_text (read_file (codes "/proc/swaps") d)
                                  ∷ [])))))))

  abbrev pub report_of : Disk → Result SetupError Settings × Store → List Check × Store
  report_of d (err e, st) = (bad (codes "settings") (h.setup_text e) [] ∷ [], st)
  report_of d (ok s, st) = (checks_of s st d, st)

  -- Loading the settings may store a new transport.
  unfoldable pub doctor : TransportCodec → RandomPaths → Store → Disk → List Check × Store
  doctor codec paths st d = report_of d (load codec opts paths st)

-- cmd/uncut/main.go: the number of checks that failed; the command fails if there is one.
unfoldable pub failed : List Check → ℕ
failed [] = 0
failed (c ∷ cs) = let rest = failed cs in if c.pass then rest else suc rest
