-- ===== src/Examples/Data.antt =====
-- A node with one client.
use uncut_core.Base.{true, false, Option, none, some, [], ◌∷◌}
use uncut_core.Text.{codes}
use uncut_core.Text.Decimal.{pos}
use uncut_core.Text.Encode.{Bytes}
use uncut_core.Config.{ClientAwg, Client, Settings}
use uncut_core.Transport.{Transport, RandomPaths}
use uncut_core.Store.{Row, Store}
use uncut_core.Core.{Draw}
use uncut_core.Setup.{default_options}
use uncut_core.Setup.Load.{TransportCodec}
use uncut_core.Nodeops.{Context}

abbrev pub a_key : ClientAwg
a_key = record {
  priv_key = codes "priv";
  pub_key = codes "pub";
  psk = codes "psk";
  ip = codes "10.8.0.2/32";
}

abbrev pub alice : Client
alice = record {
  uuid = codes "u1";
  name = codes "alice";
  password = codes "pw";
  sub_hash = codes "0a";
  protocols_explicit = true;
  protocols = codes "hysteria2" ∷ codes "vless-ws" ∷ [];
  created_at = 7;
  awg = some a_key;
}

abbrev pub random_paths : RandomPaths
random_paths = record {
  grpc = codes "G";
  xhttp = codes "X";
  ws = codes "W";
  upgrade = codes "U";
  sub = codes "S";
}

abbrev pub a_transport : Transport
a_transport = record {
  grpc = codes "G";
  xhttp = codes "/X";
  ws = codes "/W";
  upgrade = codes "/U";
  sub = codes "/S/{hash}.bin";
  reality_server_name = codes "sni.example";
}

abbrev pub node : Settings
node = record {
  domain = codes "n.example";
  ip = codes "192.0.2.1";
  tag = [];
  email = [];
  reality_priv_key = codes "rp";
  reality_pub_key = codes "rq";
  reality_short_id = codes "ab";
  reality_server_name = codes "sni.example";
  hysteria2_obfs = [];
  hysteria2_hop_ports = [];
  hysteria2_up_mbps = [];
  hysteria2_down_mbps = [];
  protocols = codes "hysteria2" ∷ codes "vless-grpc" ∷ [];
  install_dir = codes "/opt";
  subs_dir = codes "/subs";
  log_dir = codes "/log";
  mtproto_raw_secret = [];
  webproxy_secret = [];
  fingerprint = codes "firefox";
  mtproto_tls_domain = [];
  awg_priv_key = [];
  awg_pub_key = [];
  awg_header_key = [];
  awg_port = pos 0;
  transport = a_transport;
}

abbrev pub alice_row : Row
alice_row = record {
  uuid = codes "u1";
  name = codes "alice";
  password = codes "pw";
  sub_hash = some (codes "0a");
  protocols_explicit = true;
  protocols = codes "hysteria2" ∷ codes "vless-ws" ∷ [];
  created_at = 7;
  awg = some a_key;
}

abbrev pub a_store : Store
a_store = record {
  version = 5;
  settings = (codes "domain", codes "n.example") ∷ (codes "protocols", codes "hysteria2") ∷ [];
  rows = alice_row ∷ [];
  broken = λ _. false;
}

-- A store of the first schema, with a country and a row that has no token.
abbrev pub old_store : Store
old_store = record {
  version = 1;
  settings = (codes "country", codes "NL") ∷ [];
  rows = record alice_row { sub_hash = none } ∷ [];
  broken = λ _. false;
}

-- A key exchange that every input has.
abbrev pub toy_curve : Bytes → Option Bytes
toy_curve bytes = some (1 ∷ bytes)

abbrev pub a_draw : Draw
a_draw = record {
  keys = record { private_bytes = some (9 ∷ []); psk_bytes = 5 ∷ [] };
  uuid = codes "u2";
  password_bytes = 1 ∷ [];
  sub_hash_bytes = 2 ∷ [];
  now = 8;
}

-- A stored form that gives one transport back.
abbrev pub toy_codec : TransportCodec
toy_codec = record { encode = λ t. codes "t"; decode = λ text. some a_transport }

abbrev pub a_context : Context
a_context = record {
  options = default_options (codes "/data") (codes "/opt");
  codec = toy_codec;
  paths = random_paths;
  disk = record { files = []; temps = []; broken = λ _. false };
  reload = λ d s. none;
  resolves = λ _. true;
  reachable = λ _. true;
}
