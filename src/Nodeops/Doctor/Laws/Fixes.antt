-- ===== src/Nodeops/Doctor/Laws/Fixes.antt =====
-- internal/nodeops/doctor.go: a check that passes has no fix.
use uncut_core.Base.{
  All, All-append, Result, ok, err, ℕ, ◌≡◌, refl, Bool, true, not, ◌||◌, Option, List, [], ◌∷◌,
  arith,
}
use uncut_core.Text.{Text, codes, is_blank}
use uncut_core.Text.Decimal.{itoa}
use uncut_core.Config.{Settings}
use uncut_core.Config.Ports.{protocol_port, awg_port_of}
use uncut_core.Transport.{RandomPaths}
use uncut_core.Store.{Store}
use uncut_core.Files.{Disk, read_file}
use uncut_core.Setup.{SetupError, Options}
use uncut_core.Setup.Load.{TransportCodec, load}
use uncut_core.Nodeops.Doctor.{
  Check, Health, check_daemon, check_configs, dns_aaaa, dns_a, check_dns, check_ports,
  check_transport, loopback_transports, hysteria2_transport, awg_transport, check_transports,
}
use uncut_core.Nodeops.Doctor.Proc.{
  udp_listens, buffer_check, congestion_check, check_kernel_network, check_swap,
}
use uncut_core.Nodeops.Doctor.Report.{
  Host, check_certificate, check_tg_bridge, check_subscriptions, check_hysteria_bandwidth,
  checks_of, report_of, doctor,
}

-- If it passes, there is nothing to fix.
abbrev pub IsSound : Check → Type 0
IsSound c = (not c.pass || is_blank c.fix) ≡ true

check_daemon-IsSound : (h : Health) → IsSound (check_daemon h)
unfolding check_daemon
check_daemon-IsSound h = ground arith

check_configs-IsSound : (o : Option Text) → IsSound (check_configs o)
unfolding check_configs
check_configs-IsSound o = ground arith

check_dns-IsSound :
    (ip6 : Option (List Text)) (ip4 : Result Text (List Text)) (domain ip : Text)
    → All IsSound (check_dns ip6 ip4 domain ip)
unfolding check_dns dns_aaaa dns_a
check_dns-IsSound ip6 ip4 domain ip = ground arith

check_ports-IsSound :
    (dial : Text → Option Text) (listens : Text → Bool) → All IsSound (check_ports dial listens)
unfolding check_ports
check_ports-IsSound dial listens = ground arith

module _ (dial : Text → Option Text) (listens : Text → Bool) where
  check_transport-IsSound :
      (p : Text) (port : Option ℕ) → All IsSound (check_transport dial listens p port)
  check_transport-IsSound p port = ground arith

  loopback-IsSound : (ps : List Text) → All IsSound (loopback_transports dial listens ps)
  unfolding loopback_transports
  loopback-IsSound [] = tt
  loopback-IsSound (p ∷ ps) =
      All-append IsSound (check_transport dial listens p (protocol_port p))
        (loopback_transports dial listens ps) (check_transport-IsSound p (protocol_port p))
        (loopback-IsSound ps)

  hysteria2-IsSound : (ps : List Text) → All IsSound (hysteria2_transport dial listens ps)
  unfolding hysteria2_transport
  hysteria2-IsSound ps = ground arith

  awg-IsSound : (ps : List Text) (port : Text) → All IsSound (awg_transport dial listens ps port)
  unfolding awg_transport
  awg-IsSound ps port = ground arith

  check_transports-IsSound : (s : Settings) → All IsSound (check_transports dial listens s)
  unfolding check_transports
  check_transports-IsSound s =
      All-append IsSound (loopback_transports dial listens s.protocols) _
        (loopback-IsSound s.protocols)
        (All-append IsSound (hysteria2_transport dial listens s.protocols) _
          (hysteria2-IsSound s.protocols) (awg-IsSound s.protocols (itoa (awg_port_of s))))

check_kernel-IsSound : (d : Disk) → All IsSound (check_kernel_network d)
unfolding check_kernel_network buffer_check congestion_check
check_kernel-IsSound d = ground arith

check_swap-IsSound : (e : Text) (o : Option Text) → IsSound (check_swap e o)
unfolding check_swap
check_swap-IsSound e o = ground arith

module _ (h : Host) (opts : Options) where
  check_certificate-IsSound : (s : Settings) (d : Disk) → IsSound (check_certificate h opts s d)
  unfolding check_certificate
  check_certificate-IsSound s d = ground arith

  check_tg_bridge-IsSound : (s : Settings) → IsSound (check_tg_bridge h opts s)
  unfolding check_tg_bridge
  check_tg_bridge-IsSound s = ground arith

  check_subscriptions-IsSound : (st : Store) (d : Disk) → IsSound (check_subscriptions h opts st d)
  unfolding check_subscriptions
  check_subscriptions-IsSound st d = ground arith

  check_hysteria_bandwidth-IsSound : (s : Settings) → IsSound (check_hysteria_bandwidth h opts s)
  unfolding check_hysteria_bandwidth
  check_hysteria_bandwidth-IsSound s = ground arith

  checks_of-IsSound : (s : Settings) (st : Store) (d : Disk) → All IsSound (checks_of h opts s st d)
  unfolding checks_of
  checks_of-IsSound s st d =
      let listens = udp_listens d in
      let last : All IsSound (
          check_hysteria_bandwidth h opts s
          ∷ check_swap h.swap_text (read_file (codes "/proc/swaps") d)
          ∷ []) =
        (
          check_hysteria_bandwidth-IsSound s,
          (check_swap-IsSound h.swap_text (read_file (codes "/proc/swaps") d), tt),
        ) in
      let kernel = All-append IsSound (check_kernel_network d) _ (check_kernel-IsSound d) last in
      let transports =
        All-append IsSound (check_transports h.dial listens s) _
          (check_transports-IsSound h.dial listens s)
          (check_tg_bridge-IsSound s, (check_subscriptions-IsSound st d, kernel)) in
      let ports' =
        All-append IsSound (check_ports h.dial listens) _ (check_ports-IsSound h.dial listens)
          (check_certificate-IsSound s d, transports) in
      (
        check_daemon-IsSound h.daemon,
        (
          check_configs-IsSound h.configs,
          All-append IsSound (check_dns h.ip6 h.ip4 s.domain s.ip) _
              (check_dns-IsSound h.ip6 h.ip4 s.domain s.ip) ports',
        ),
      )

  report_of-IsSound :
      (d : Disk) (r : Result SetupError Settings × Store) → All IsSound (report_of h opts d r).0
  report_of-IsSound d (err e, st) = (refl, tt)
  report_of-IsSound d (ok s, st) = checks_of-IsSound s st d

  -- No check of a report that passes names a fix, whatever the probes find.
  pub doctor-IsSound :
      (codec : TransportCodec) (paths : RandomPaths) (st : Store) (d : Disk)
      → All IsSound (doctor h opts codec paths st d).0
  unfolding doctor
  doctor-IsSound codec paths st d = report_of-IsSound d (load codec opts paths st)
