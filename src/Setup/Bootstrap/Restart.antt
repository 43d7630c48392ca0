-- ===== src/Setup/Bootstrap/Restart.antt =====
-- internal/setup/setup.go: a start of the daemon keeps what is not its own to change.
use uncut_core.Base.{
  ◌==◌, contains, ◌>>=◌, lookup, ◌≡◌, Bool, false, Option, none, some, List, [], ◌∷◌, arith,
}
use uncut_core.Text.{Text, codes, text_eq, is_blank}
use uncut_core.Text.Encode.{Bytes}
use uncut_core.Config.{AppConfig, or_text, default_domain}
use uncut_core.Store.{select_setting, Store}
use uncut_core.Core.Awg.{
  awg_private_key, awg_public_key, awg_header_protection_key, ensure_awg_server_keys,
  backfill_client_awg,
}
use uncut_core.Core.IpSync.{server_ip}
use uncut_core.Setup.{Options, get, setting, core_step}
use uncut_core.Setup.Protocols.{protocols_key, merge_default_protocols}
use uncut_core.Setup.Load.{TransportCodec, load}
use uncut_core.Setup.Bootstrap.{
  Start, reality_private_key, reality_public_key, ensure_reality_keys, ensure_secrets, secret_keys,
  ensure_settings, default_settings, store_given, seed_if, ip_synced, given, after_keys, bootstrap,
}
use uncut_core.Setup.Bootstrap.Keeps.{
  Keeps, bind-Keeps, setting-Keeps, ensure_settings-Keeps, ensure_secrets-Keeps, store_given-Keeps,
  core_step-Keeps, get-of,
}
use uncut_core.Setup.Bootstrap.Steps.{
  seed_if-Keeps, backfill-Keeps, ip_synced-Keeps, ensure_reality_keys-Keeps,
  ensure_awg_server_keys-Keeps, merge-Keeps, load-Keeps,
}

-- The settings that a start may write over: the address, the two key groups, the protocol list,
-- and what the environment gives.
abbrev pub changing_keys : List Text
changing_keys =
    server_ip
    ∷ reality_private_key
    ∷ reality_public_key
    ∷ awg_private_key
    ∷ awg_public_key
    ∷ awg_header_protection_key
    ∷ protocols_key
    ∷ codes "email"
    ∷ codes "tag"
    ∷ []

-- No key of the list is the given one.
abbrev pub ApartAll : Text → List Text → Type 0
ApartAll key [] = Unit
ApartAll key (k ∷ ks) = ((k == key) ≡ false) × ApartAll key ks

pub apart_lem : (key : Text) (ks : List Text) → contains ks key ≡ false → ApartAll key ks
apart_lem key [] h = tt
apart_lem key (k ∷ ks) h = (ground (arith, h), apart_lem key ks (ground (arith, h)))

given-absent :
    (x25519 : Bytes → Option Bytes) (codec : TransportCodec) (cfg : AppConfig) (key : Text)
    → (codes "email" == key) ≡ false
    → (codes "tag" == key) ≡ false
    → lookup key (given x25519 codec cfg) ≡ none
unfolding lookup
given-absent x25519 codec cfg key e t = ground (arith, e, t)

after_keys-Keeps :
    (x25519 : Bytes → Option Bytes) (codec : TransportCodec) (cfg : AppConfig) (opts : Options)
    (d : Start) (fresh : Bool) (key v : Text)
    → is_blank v ≡ false
    → ApartAll key changing_keys
    → Keeps key v (after_keys x25519 codec cfg opts d fresh)
unfolding after_keys
after_keys-Keeps x25519 codec cfg opts d fresh key v b x =
    bind-Keeps key v (λ s. core_step (ensure_awg_server_keys x25519 d.server_keys s)) _
      (core_step-Keeps key v (ensure_awg_server_keys x25519 d.server_keys) (
        ensure_awg_server_keys-Keeps key v x25519 d.server_keys x.1.1.1.0 x.1.1.1.1.0
          x.1.1.1.1.1.0))
      (λ _.
        bind-Keeps key v (ensure_secrets d.secret_bytes secret_keys) _
          (ensure_secrets-Keeps key v d.secret_bytes secret_keys b)
          (λ _.
            bind-Keeps key v (ensure_settings (default_settings cfg.bandwidth)) _
              (ensure_settings-Keeps key v (default_settings cfg.bandwidth))
              (λ _.
                bind-Keeps key v merge_default_protocols _ (merge-Keeps key v x.1.1.1.1.1.1.0) (λ _.
                  bind-Keeps key v (store_given (given x25519 codec cfg)) _
                    (store_given-Keeps key v (given x25519 codec cfg)
                      (given-absent x25519 codec cfg key x.1.1.1.1.1.1.1.0 x.1.1.1.1.1.1.1.1.0))
                    (λ _.
                      bind-Keeps key v
                        (λ s. core_step (backfill_client_awg x25519 d.now d.client_keys s)) _
                        (core_step-Keeps key v (backfill_client_awg x25519 d.now d.client_keys)
                          (backfill-Keeps key v x25519 d.now d.client_keys))
                        (λ _.
                          bind-Keeps key v (seed_if x25519 fresh d.seeds cfg.clients)
                            (λ _. load codec opts d.paths)
                            (seed_if-Keeps key v x25519 fresh d.seeds cfg.clients)
                            (λ _. load-Keeps key v codec opts d.paths b)))))))

-- On a store where a setting other than the server's address, the REALITY and AWG keys, the
-- protocol list, the email and the tag has a value that is not blank and can be read, a start of the
-- daemon leaves the value as it is, whether it ends well or fails at any step.
pub bootstrap-Keeps :
    (x25519 : Bytes → Option Bytes) (codec : TransportCodec) (cfg : AppConfig) (opts : Options)
    (d : Start) (key v : Text) (s : Store)
    → contains changing_keys key ≡ false
    → is_blank v ≡ false
    → lookup key s.settings ≡ some v
    → s.broken (select_setting key) ≡ false
    → get key (bootstrap x25519 codec cfg opts d s).1 ≡ v
unfolding bootstrap
bootstrap-Keeps x25519 codec cfg opts d key v s apart b held readable =
    let x = apart_lem key changing_keys apart in
    get-of key v _ (
      bind-Keeps key v (setting (codes "domain") (or_text cfg.domain default_domain)) _
        (setting-Keeps key v (codes "domain") (or_text cfg.domain default_domain))
        (λ _.
          bind-Keeps key v (ip_synced x25519 d)
            (λ _. ensure_reality_keys x25519 d.reality_bytes >>= after_keys x25519 codec cfg opts d)
            (ip_synced-Keeps key v d.answer d.is_ipv4 x.0)
            (λ _.
              bind-Keeps key v (ensure_reality_keys x25519 d.reality_bytes) _
                (ensure_reality_keys-Keeps key v x25519 d.reality_bytes x.1.0 x.1.1.0)
                (λ fresh. after_keys-Keeps x25519 codec cfg opts d fresh key v b x)))
        s (record { held = held; readable = readable }))
