-- ===== src/Nodeops/Doctor.antt =====
-- internal/nodeops/doctor.go: the report of the node on itself.
--
-- What a probe finds on the host or the network is a parameter; the files under /proc are files of
-- the disk.
pub mod Proc
pub mod Report
pub mod Laws
use uncut_core.Base.{
  ltb, eqb, if◌then◌else◌, length, ◌==◌, contains, Result, ok, err, ℕ, Bool, true, false, not, ◌&&◌,
  ◌||◌, Option, none, some, List, [], ◌∷◌, ◌++◌,
}
use uncut_core.Text.{Text, codes, text_eq, is_blank}
use uncut_core.Text.Split.{join}
use uncut_core.Text.Decimal.{print, itoa}
use uncut_core.Config.{Settings}
use uncut_core.Config.Protocols.{hysteria2, amneziawg}
use uncut_core.Config.Ports.{protocol_port, awg_port_of}

pub record Check : Type 0 where
  pub name : Text
  pub pass : Bool
  pub detail : Text
  pub fix : Text

abbrev pub good : Text → Text → Check
good name detail = record { name = name; pass = true; detail = detail; fix = [] }

abbrev pub bad : Text → Text → Text → Check
bad name detail fix = record { name = name; pass = false; detail = detail; fix = fix }

-- The answer of the daemon's health endpoint, with the processes as the map lists them.
pub data Health : Type 0 where
  no_request no_health : Text → Health
  health : ℕ → List (Text × Bool) → Health

-- Go's order of texts.
unfoldable pub text_leb : Text → Text → Bool
text_leb [] t = true
text_leb (c ∷ s) [] = false
text_leb (c ∷ s) (d ∷ t) =
    let rest = text_leb s t in if ltb c d then true else if ltb d c then false else rest

unfoldable pub insert_text : Text → List Text → List Text
insert_text t [] = t ∷ []
insert_text t (s ∷ ss) =
    let rest = insert_text t ss in if text_leb t s then t ∷ s ∷ ss else s ∷ rest

-- `slices.Sort`
unfoldable pub sort_texts : List Text → List Text
sort_texts [] = []
sort_texts (t ∷ ts) = insert_text t (sort_texts ts)

unfoldable pub down_of : List (Text × Bool) → List Text
down_of [] = []
down_of ((name, up) ∷ ps) = let rest = down_of ps in if up then rest else name ∷ rest

abbrev none_of : List Text → Bool
none_of [] = true
none_of (t ∷ ts) = false

unfoldable pub check_daemon : Health → Check
check_daemon (no_request e) = bad (codes "daemon") e []
check_daemon (no_health e) = bad (codes "daemon") e (codes "restart the container")
check_daemon (health status processes) =
    if not (none_of (down_of processes)) || not (eqb status 200)
    then bad (codes "daemon") (codes "down: " ++ join (codes ", ") (sort_texts (down_of processes)))
        (codes "check the process logs in /opt/uncut/data/logs")
    else good (codes "daemon") (print (length processes) ++ codes " processes up")

-- An error is its text.
unfoldable pub check_configs : Option Text → Check
check_configs (some e) =
    bad (codes "configs") e (codes "raw menu: rebuild, then read the daemon logs")
check_configs none = good (codes "configs") (codes "sing-box check and nginx -t pass")

abbrev first_or_empty : List Text → Text
first_or_empty [] = []
first_or_empty (a ∷ as') = a

unfoldable pub dns_aaaa : Text → Option (List Text) → List Check
dns_aaaa domain none = []
dns_aaaa domain (some []) = []
dns_aaaa domain (some (a ∷ rest)) =
    bad (codes "dns aaaa") (domain ++ (codes " has AAAA " ++ a))
      (codes "remove the AAAA record: the node serves IPv4 only")
    ∷ []

unfoldable pub dns_a : Text → Text → Result Text (List Text) → Check
dns_a domain ip (err e) =
    bad (codes "dns") (domain ++ (codes ": " ++ e))
      (codes "check the A record and this host's resolver")
dns_a domain ip (ok ips) =
    let resolved = first_or_empty ips in
    if not (is_blank ip) && not (is_blank resolved) && not (ip == resolved)
    then bad (codes "dns")
        (domain ++ (codes " resolves to " ++ (resolved ++ (codes ", pinned IP is " ++ ip))))
        (codes "update the A record or re-run: raw sync-ip")
    else good (codes "dns") (
        domain
        ++ (codes " -> "
            ++ (resolved ++ (if is_blank ip then codes " (no pinned IP to compare)" else []))))

-- `ip6` and `ip4` are the two lookups of the domain.
unfoldable pub check_dns : Option (List Text) → Result Text (List Text) → Text → Text → List Check
check_dns ip6 ip4 domain ip = dns_aaaa domain ip6 ++ (dns_a domain ip ip4 ∷ [])

-- `dial` gives the error of a TCP connection to a loopback port, if there is one; `listens` says
-- whether a UDP port is in the kernel's table.
module _ (dial : Text → Option Text) (listens : Text → Bool) where
  abbrev tcp_port : Text → Text → Check
  tcp_port name port = elim (dial port) [
    | some e ↦ bad name e (codes "check nginx inside the container")
    | none ↦ good name (codes "accepting")
  ]

  unfoldable pub check_ports : List Check
  check_ports =
      tcp_port (codes "port 80/tcp") (codes "80")
      ∷ tcp_port (codes "port 443/tcp") (codes "443")
      ∷ (if listens (codes "443")
          then good (codes "port 443/udp") (codes "listening")
          else bad (codes "port 443/udp") (codes "not listening")
              (codes "check sing-box and the container restart"))
      ∷ []

  abbrev dialled : Text → ℕ → Option Text → Check
  dialled proto port (some e) =
      bad (codes "transport " ++ proto) e (codes "check sing-box logs in /opt/uncut/data/logs")
  dialled proto port none =
      good (codes "transport " ++ proto) (codes "accepting on 127.0.0.1:" ++ print port)

  abbrev check_transport : Text → Option ℕ → List Check
  check_transport proto none = []
  check_transport proto (some port) = dialled proto port (dial (print port)) ∷ []

  unfoldable pub loopback_transports : List Text → List Check
  loopback_transports [] = []
  loopback_transports (p ∷ ps) = check_transport p (protocol_port p) ++ loopback_transports ps

  unfoldable pub hysteria2_transport : List Text → List Check
  hysteria2_transport protocols =
      if contains protocols hysteria2 && not (listens (codes "443"))
      then bad (codes "transport hysteria2") (codes "udp 443 not listening")
          (codes "check sing-box logs")
        ∷ []
      else []

  unfoldable pub awg_transport : List Text → Text → List Check
  awg_transport protocols port =
      if contains protocols amneziawg
      then (if listens port
          then good (codes "transport amneziawg") (codes "udp " ++ (port ++ codes " listening"))
          else bad (codes "transport amneziawg") (codes "udp " ++ (port ++ codes " not listening"))
              (codes "check sing-box logs"))
        ∷ []
      else []

  unfoldable pub check_transports : Settings → List Check
  check_transports s =
      loopback_transports s.protocols
      ++ (hysteria2_transport s.protocols ++ awg_transport s.protocols (itoa (awg_port_of s)))
