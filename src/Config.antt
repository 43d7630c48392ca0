-- ===== src/Config.antt =====
-- internal/config/config.go: the node's data, and the fixed parameters.
pub mod Protocols
pub mod Ports
use uncut_core.Base.{ℕ, Bool, Option, List, [], ◌∷◌}
use uncut_core.Text.{Text, codes}
use uncut_core.Text.Decimal.{ℤ}
use uncut_core.Transport.{Transport}

pub record ClientAwg : Type 0 where
  pub priv_key : Text
  pub pub_key : Text
  pub psk : Text
  pub ip : Text

-- `created_at` is in seconds, and 0 is Go's zero time.
pub record Client : Type 0 where
  pub uuid : Text
  pub name : Text
  pub password : Text
  pub sub_hash : Text
  pub protocols_explicit : Bool
  pub protocols : List Text
  pub created_at : ℕ
  pub awg : Option ClientAwg

pub record Settings : Type 0 where
  pub domain : Text
  pub ip : Text
  pub tag : Text
  pub email : Text
  pub reality_priv_key : Text
  pub reality_pub_key : Text
  pub reality_short_id : Text
  pub reality_server_name : Text
  pub hysteria2_obfs : Text
  pub hysteria2_hop_ports : Text
  pub hysteria2_up_mbps : Text
  pub hysteria2_down_mbps : Text
  pub protocols : List Text
  pub install_dir : Text
  pub subs_dir : Text
  pub log_dir : Text
  pub mtproto_raw_secret : Text
  pub webproxy_secret : Text
  pub fingerprint : Text
  pub mtproto_tls_domain : Text
  pub awg_priv_key : Text
  pub awg_pub_key : Text
  pub awg_header_key : Text
  pub awg_port : ℤ
  pub transport : Transport

-- The process environment, as far as the node reads it.
pub record AppConfig : Type 0 where
  pub domain : Text
  pub email : Text
  pub tag : Text
  pub timezone : Text
  pub clients : Text
  pub log_level : Text
  pub bandwidth : Text

-- `cmp.Or` on two texts.
unfoldable pub or_text : Text → Text → Text
or_text [] fallback = fallback
or_text (c ∷ s) fallback = c ∷ s

unfoldable pub load_app_config : (Text → Text) → AppConfig
unfolding or_text
load_app_config getenv = record {
  domain = getenv (codes "DOMAIN");
  email = getenv (codes "EMAIL");
  tag = getenv (codes "TAG");
  timezone = or_text (getenv (codes "TZ")) (codes "Europe/Moscow");
  clients = getenv (codes "CLIENTS");
  log_level = or_text (getenv (codes "LOG_LEVEL")) (codes "info");
  bandwidth = getenv (codes "BANDWIDTH");
}

unfoldable pub default_domain : Text
default_domain = codes "node.example.com"

unfoldable pub hysteria2_hop_ports_default : Text
hysteria2_hop_ports_default = codes "20000:30000"

unfoldable pub default_hysteria2_bandwidth : Text
default_hysteria2_bandwidth = codes "500"

unfoldable pub default_fingerprint : Text
default_fingerprint = codes "firefox"

-- The fixed AmneziaWG parameters.
pub record AwgParams : Type 0 where
  pub server_addr : Text
  pub padding : Text
  pub mtu : ℕ
  pub s1 : ℕ
  pub s2 : ℕ
  pub s3 : ℕ
  pub s4 : ℕ
  pub h1 : ℕ
  pub h2 : ℕ
  pub h3 : ℕ
  pub h4 : ℕ
  pub jc : ℕ
  pub jmin : ℕ
  pub jmax : ℕ

unfoldable pub awg_params : AwgParams
awg_params = record {
  server_addr = codes "10.8.0.1/24";
  padding = codes "16-128";
  mtu = 1280;
  s1 = 56;
  s2 = 48;
  s3 = 32;
  s4 = 24;
  h1 = 1;
  h2 = 2;
  h3 = 3;
  h4 = 4;
  jc = 4;
  jmin = 40;
  jmax = 70;
}
