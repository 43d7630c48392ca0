-- ===== src/Setup/Bootstrap.antt =====
-- internal/setup/setup.go: Bootstrap, which prepares the node's state at the start of the daemon.
--
-- The runtime may range over the literal maps in any order; here it is the order of the source.
pub mod Keeps
pub mod Steps
pub mod Restart
use uncut_core.Base.{
  if◌then◌else◌, ok, err, Exec, continue, ◌>>=◌, ◌>>◌, Map, ℕ, zero, suc, Bool, true, false, not,
  ◌&&◌, Option, none, some, List, [], ◌∷◌,
}
use uncut_core.Text.{Text, codes, is_blank}
use uncut_core.Text.Split.{split, join}
use uncut_core.Text.Encode.{Bytes, hex_encode, raw_url_base64, base64_encode}
use uncut_core.Config.{
  Settings, AppConfig, or_text, default_domain, hysteria2_hop_ports_default,
  default_hysteria2_bandwidth, default_fingerprint,
}
use uncut_core.Config.Protocols.{default_protocols}
use uncut_core.Transport.{RandomPaths}
use uncut_core.Store.{Store, set_setting, set_settings}
use uncut_core.Core.{KeyDraw, Draw}
use uncut_core.Core.Awg.{clamp, ensure_awg_server_keys, backfill_client_awg}
use uncut_core.Core.Clients.{add_client_named}
use uncut_core.Core.IpSync.{sync_server_ip}
use uncut_core.Setup.{SetupError, key_not_made, Options, get, stored, setting, core_step}
use uncut_core.Setup.Protocols.{trimmed_parts, protocols_key, comma, merge_default_protocols}
use uncut_core.Setup.Load.{TransportCodec, made, load}

-- The random values of one start, its time, and what the network and the libraries answer.
pub record Start : Type 0 where
  pub reality_bytes : Option Bytes
  pub server_keys : KeyDraw
  pub secret_bytes : Text → ℕ → ℕ
  pub client_keys : ℕ → KeyDraw
  pub seeds : Text → Draw
  pub paths : RandomPaths
  pub now : ℕ
  pub answer : Text → Option Text
  pub is_ipv4 : Text → Bool

unfoldable pub reality_private_key : Text
reality_private_key = codes "reality_private_key"

unfoldable pub reality_public_key : Text
reality_public_key = codes "reality_public_key"

module _ (x25519 : Bytes → Option Bytes) where
  unfoldable pub reality_pair : Bytes → Option Bytes → Exec Store SetupError Bool
  unfolding reality_private_key reality_public_key
  reality_pair priv none s = (err key_not_made, s)
  reality_pair priv (some public) s = stored true (
      set_settings
        ((reality_private_key, base64_encode raw_url_base64 priv)
          ∷ (reality_public_key, base64_encode raw_url_base64 public)
          ∷ [])
        s)

  unfoldable pub reality_keys : Option Bytes → Exec Store SetupError Bool
  unfolding clamp reality_pair
  reality_keys none s = (err key_not_made, s)
  reality_keys (some bytes) s = reality_pair (clamp bytes) (x25519 (clamp bytes)) s

  -- True where the pair was made now: the first start of the node.
  unfoldable pub ensure_reality_keys : Option Bytes → Exec Store SetupError Bool
  unfolding get reality_private_key reality_public_key reality_keys
  ensure_reality_keys bytes s =
      if not (is_blank (get reality_private_key s)) && not (is_blank (get reality_public_key s))
      then (ok false, s)
      else reality_keys bytes s

-- `RandomHex(n)`, from the stream of bytes that `rand.Read` takes.
unfoldable pub read_bytes : ℕ → (ℕ → ℕ) → Bytes
read_bytes zero stream = []
read_bytes (suc n) stream = stream 0 ∷ read_bytes n (λ i. stream (suc i))

unfoldable pub random_hex : ℕ → (ℕ → ℕ) → Text
unfolding read_bytes hex_encode
random_hex n stream = hex_encode (read_bytes n stream)

-- A secret that is there is kept.
unfoldable pub ensure_secrets : (Text → ℕ → ℕ) → List (Text × ℕ) → Exec Store SetupError (Unit {0})
unfolding get random_hex
ensure_secrets bytes [] s = (ok tt, s)
ensure_secrets bytes ((key, n) ∷ keys) s =
    let kept = ensure_secrets bytes keys s in
    let made =
      continue (stored tt (set_setting key (random_hex n (bytes key)) s)).0
        (λ _. ensure_secrets bytes keys)
        (stored {A = Unit {0}} tt (set_setting key (random_hex n (bytes key)) s)).1 in
    if is_blank (get key s) then made else kept

unfoldable pub secret_keys : List (Text × ℕ)
secret_keys =
    (codes "reality_short_id", 8)
    ∷ (codes "mtproto_raw_secret", 16)
    ∷ (codes "webproxy_secret", 16)
    ∷ (codes "hysteria2_obfs", 16)
    ∷ []

unfoldable pub ensure_settings : Map Text Text → Exec Store SetupError (Unit {0})
unfolding setting
ensure_settings [] s = (ok tt, s)
ensure_settings ((key, fallback) ∷ rest) s =
    continue (setting key fallback s).0 (λ _. ensure_settings rest) (setting key fallback s).1

unfoldable pub default_settings : Text → Map Text Text
unfolding hysteria2_hop_ports_default default_hysteria2_bandwidth default_fingerprint or_text join
    default_protocols protocols_key
default_settings bandwidth =
    (codes "hysteria2_hop_ports", hysteria2_hop_ports_default)
    ∷ (codes "hysteria2_up_mbps", or_text bandwidth default_hysteria2_bandwidth)
    ∷ (codes "hysteria2_down_mbps", or_text bandwidth default_hysteria2_bandwidth)
    ∷ (protocols_key, join comma default_protocols)
    ∷ (codes "fingerprint", default_fingerprint)
    ∷ []

-- The settings that the environment overrides on each start, if it gives them.
unfoldable pub store_given : Map Text Text → Exec Store SetupError (Unit {0})
store_given [] s = (ok tt, s)
store_given ((key, value) ∷ rest) s =
    let skipped = store_given rest s in
    let written =
      continue (stored tt (set_setting key value s)).0 (λ _. store_given rest)
        (stored {A = Unit {0}} tt (set_setting key value s)).1 in
    if is_blank value then skipped else written

unfoldable pub client_names : Text → List Text
unfolding or_text split trimmed_parts
client_names clients = trimmed_parts (split b',' (or_text clients (codes "admin")))

module _ (x25519 : Bytes → Option Bytes) where
  -- A client that cannot be added is passed over.
  unfoldable pub seed_clients : (Text → Draw) → List Text → Store → Store
  unfolding add_client_named
  seed_clients seeds [] s = s
  seed_clients seeds (name ∷ names) s =
      seed_clients seeds names (add_client_named x25519 name [] (seeds name) s).1

  unfoldable pub seed_if : Bool → (Text → Draw) → Text → Exec Store SetupError (Unit {0})
  unfolding seed_clients client_names
  seed_if fresh seeds clients s =
      (ok tt, if fresh then seed_clients seeds (client_names clients) s else s)

  -- An address that is not detected stops nothing.
  abbrev pub ip_synced : Start → Exec Store SetupError (Unit {0})
  ip_synced d s = (ok tt, (sync_server_ip d.answer d.is_ipv4 false s).1)

  module _ (codec : TransportCodec) where
    abbrev pub given : AppConfig → Map Text Text
    given cfg = (codes "email", cfg.email) ∷ (codes "tag", cfg.tag) ∷ []

    -- What follows the REALITY keys; `fresh` says that they were made now.
    unfoldable pub after_keys : AppConfig → Options → Start → Bool → Exec Store SetupError Settings
    unfolding ensure_secrets ensure_settings secret_keys default_settings store_given
        merge_default_protocols seed_if load
    after_keys cfg opts d fresh = do
      λ s. core_step (ensure_awg_server_keys x25519 d.server_keys s)
      ensure_secrets d.secret_bytes secret_keys
      ensure_settings (default_settings cfg.bandwidth)
      merge_default_protocols
      store_given (given cfg)
      λ s. core_step (backfill_client_awg x25519 d.now d.client_keys s)
      seed_if fresh d.seeds cfg.clients
      load codec opts d.paths

    unfoldable pub bootstrap : AppConfig → Options → Start → Exec Store SetupError Settings
    unfolding setting ensure_reality_keys after_keys or_text default_domain sync_server_ip
    bootstrap cfg opts d = do
      domain ← setting (codes "domain") (or_text cfg.domain default_domain)
      ip_synced d
      fresh ← ensure_reality_keys x25519 d.reality_bytes
      after_keys cfg opts d fresh
