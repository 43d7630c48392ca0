-- ===== src/Setup/Load.antt =====
-- internal/setup/setup.go: the settings record that the commands work with, and the stored
-- transport.
use uncut_core.Base.{if◌then◌else◌, Result, ok, err, Exec, not, Option, none, some}
use uncut_core.Text.{Text, codes, is_blank}
use uncut_core.Text.Decimal.{ℤ, pos, atoi}
use uncut_core.Config.{Settings, or_text, default_fingerprint}
use uncut_core.Transport.{Transport, RandomPaths, generate, is_valid}
use uncut_core.Store.{Store, set_setting}
use uncut_core.Setup.{
  SetupError, not_configured, transport_not_parsed, transport_not_valid, Options, get, stored,
}
use uncut_core.Setup.Protocols.{split_list, protocols_key}

-- `json.Marshal` and `json.Unmarshal` of the transport; none where the text is no transport.
pub record TransportCodec : Type 0 where
  pub encode : Transport → Text
  pub decode : Text → Option Transport

unfoldable pub transport_key : Text
transport_key = codes "transport"

abbrev pub port_or_zero : Option ℤ → ℤ
port_or_zero none = pos 0
port_or_zero (some p) = p

unfoldable pub settings_of : Options → Store → Transport → Settings
unfolding get split_list atoi or_text default_fingerprint
settings_of opts s t = record {
  domain = get (codes "domain") s;
  ip = get (codes "server_ip") s;
  tag = get (codes "tag") s;
  email = get (codes "email") s;
  reality_priv_key = get (codes "reality_private_key") s;
  reality_pub_key = get (codes "reality_public_key") s;
  reality_short_id = get (codes "reality_short_id") s;
  reality_server_name = t.reality_server_name;
  hysteria2_obfs = get (codes "hysteria2_obfs") s;
  hysteria2_hop_ports = get (codes "hysteria2_hop_ports") s;
  hysteria2_up_mbps = get (codes "hysteria2_up_mbps") s;
  hysteria2_down_mbps = get (codes "hysteria2_down_mbps") s;
  protocols = split_list (get protocols_key s);
  install_dir = opts.install_dir;
  subs_dir = opts.subs_dir;
  log_dir = opts.log_dir;
  mtproto_raw_secret = get (codes "mtproto_raw_secret") s;
  webproxy_secret = get (codes "webproxy_secret") s;
  fingerprint = or_text (get (codes "fingerprint") s) default_fingerprint;
  mtproto_tls_domain = get (codes "mtproto_tls_domain") s;
  awg_priv_key = get (codes "awg_private_key") s;
  awg_pub_key = get (codes "awg_public_key") s;
  awg_header_key = get (codes "awg_header_protection_key") s;
  awg_port = port_or_zero (atoi (get (codes "awg_port") s));
  transport = t;
}

module _ (codec : TransportCodec) where
  -- `SaveTransport` of a transport that is not nil.
  unfoldable pub save_transport : Transport → Exec Store SetupError (Unit {0})
  unfolding transport_key
  save_transport t s =
      if not (is_valid t)
      then (err transport_not_valid, s)
      else stored tt (set_setting transport_key (codec.encode t) s)

  abbrev parsed : Option Transport → Result SetupError Transport
  parsed none = err transport_not_parsed
  parsed (some t) = ok t

  abbrev pub made :
      Transport → Result SetupError (Unit {0}) × Store → Result SetupError Transport × Store
  made t (ok _, s) = (ok t, s)
  made t (err e, s) = (err e, s)

  unfoldable pub load_transport : RandomPaths → Exec Store SetupError Transport
  unfolding get generate save_transport transport_key
  load_transport paths s =
      if is_blank (get transport_key s)
      then made (generate paths) (save_transport (generate paths) s)
      else (parsed (codec.decode (get transport_key s)), s)

  -- The settings are read before the transport, which may be written.
  abbrev pub loaded :
      Options → Store → Result SetupError Transport × Store → Result SetupError Settings × Store
  loaded opts s (err e, s') = (err e, s')
  loaded opts s (ok t, s') =
      if is_blank (get (codes "domain") s)
      then (err (not_configured (codes "domain")), s')
      else (ok (settings_of opts s t), s')

  unfoldable pub load : Options → RandomPaths → Exec Store SetupError Settings
  unfolding load_transport settings_of get
  load opts paths s = loaded opts s (load_transport paths s)
