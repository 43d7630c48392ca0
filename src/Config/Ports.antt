-- ===== src/Config/Ports.antt =====
-- The listen ports: the loopback listeners and the AmneziaWG port.
use uncut_core.Base.{
  ltb, leb, eqb, if◌then◌else◌, ◌==◌, Result, ok, err, ℕ, ◌&&◌, ◌||◌, Option, none, some,
}
use uncut_core.Text.{Text, text_eq}
use uncut_core.Text.Decimal.{ℤ, pos, negsuc}
use uncut_core.Config.{Settings}
use uncut_core.Config.Protocols.{
  xhttp_stealth, vless_ws, vless_httpupgrade, vless_grpc, vless_reality,
}

pub record LoopbackPorts : Type 0 where
  pub ws : ℕ
  pub xhttp : ℕ
  pub grpc : ℕ
  pub upgrade : ℕ
  pub reality : ℕ
  pub https_backend : ℕ
  pub mtproto_bridge : ℕ
  pub mtproto_tls : ℕ
  pub doh : ℕ

unfoldable pub ports : LoopbackPorts
ports = record {
  ws = 10001;
  xhttp = 10002;
  grpc = 10003;
  upgrade = 10004;
  reality = 8443;
  https_backend = 8442;
  mtproto_bridge = 2398;
  mtproto_tls = 2399;
  doh = 3053;
}

unfoldable pub protocol_port : Text → Option ℕ
unfolding ports
protocol_port p =
    if p == vless_ws
    then some ports.ws
    else if p == xhttp_stealth
    then some ports.xhttp
    else if p == vless_grpc
    then some ports.grpc
    else if p == vless_httpupgrade
    then some ports.upgrade
    else if p == vless_reality
    then some ports.reality
    else none

abbrev pub default_awg_port : ℕ
default_awg_port = 45820

unfoldable pub awg_port_of : Settings → ℤ
awg_port_of s = elim s.awg_port [
  | pos n ↦ if ltb 0 n then pos n else pos default_awg_port
  | negsuc n ↦ pos default_awg_port
]

pub data PortError : Type 0 where
  out_of_range owned in_hop_range : PortError

unfoldable pub validate_positive : ℕ → Result PortError (Unit {0})
validate_positive n =
    if ltb n 1 || ltb 65535 n
    then err PortError.out_of_range
    else if eqb n 80 || eqb n 443 || eqb n 2398 || eqb n 2399
    then err PortError.owned
    else if leb 20000 n && leb n 30000
    then err PortError.in_hop_range
    else ok tt

unfoldable pub validate_awg_port : ℤ → Result PortError (Unit {0})
unfolding validate_positive
validate_awg_port (pos n) = validate_positive n
validate_awg_port (negsuc n) = err PortError.out_of_range
