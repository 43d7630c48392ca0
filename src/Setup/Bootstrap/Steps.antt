-- ===== src/Setup/Bootstrap/Steps.antt =====
-- internal/setup/setup.go: the parts of Bootstrap that keep a setting.
use uncut_core.Base.{
  ltb, Bool-cases, Option-cases, ◌==◌, Result, ok, err, Result-cases, lookup, ℕ, suc, ◌≡◌, inl, inr,
  Bool, true, false, not, Option, none, some, List, [], ◌∷◌, arith,
}
use uncut_core.Text.{Text, text_eq, is_blank}
use uncut_core.Text.Encode.{Bytes, raw_url_base64, base64_encode}
use uncut_core.Text.Split.{join}
use uncut_core.Config.Protocols.{default_protocols}
use uncut_core.Config.{Client}
use uncut_core.Transport.{Transport, RandomPaths, generate, is_valid}
use uncut_core.Store.{
  upsert_client, Store, get_setting, set_setting, set_settings, get_clients, add_client,
}
use uncut_core.Core.{CoreError, wrap, KeyDraw, Draw}
use uncut_core.Core.Awg.{
  clamp, random_wg_key_pair, random_awg_secret, used_awg_addresses, awg_private_key, awg_public_key,
  awg_header_protection_key, or_blank, save_keys, ensure_awg_server_keys, awg_or_empty, is_complete,
  fill_awg, backfill_from, backfill_client_awg,
}
use uncut_core.Core.Clients.{save_client, add_client_named}
use uncut_core.Core.Clients.Prepare.{prepare}
use uncut_core.Core.IpSync.{server_ip, get_public_ipv4, sync_from, sync_server_ip}
use uncut_core.Setup.{SetupError, Options, get}
use uncut_core.Setup.Protocols.{
  split_list, merge_missing, protocols_key, comma, save_merged, merge_default_protocols,
}
use uncut_core.Setup.Load.{
  TransportCodec, transport_key, save_transport, made, load_transport, loaded, load,
}
use uncut_core.Setup.Bootstrap.{
  reality_private_key, reality_public_key, reality_pair, reality_keys, ensure_reality_keys,
  client_names, seed_clients, seed_if,
}
use uncut_core.Setup.Bootstrap.Keeps.{
  Holds, Keeps, continue-Keeps, set_setting-Keeps, set_settings-Keeps, get-Holds, stored-Keeps,
}

module _ (key v : Text) where
  -- A write of clients alone.
  pub add_client-Keeps : (now : ℕ) (c : Client) → Keeps key v (add_client now c)
  unfolding add_client
  add_client-Keeps now c s h = elim (Bool-cases (s.broken (upsert_client c.uuid))) [
    | inl e ↦ rw e h
    | inr e ↦ rw e (record { held = h.held; readable = h.readable })
  ]

  module _ (x25519 : Bytes → Option Bytes) where
    pub add_client_named-Keeps :
        (name : Text) (protocols : List Text) (d : Draw)
        → Keeps key v (add_client_named x25519 name protocols d)
    unfolding add_client_named save_client
    add_client_named-Keeps name protocols d s h =
        continue-Keeps key v (prepare x25519 name protocols d s) (save_client d.now)
          (λ c t. add_client-Keeps d.now c t) s h

    seed_clients-Holds :
        (seeds : Text → Draw) (names : List Text) (s : Store)
        → Holds key v s
        → Holds key v (seed_clients x25519 seeds names s)
    unfolding seed_clients
    seed_clients-Holds seeds [] s h = h
    seed_clients-Holds seeds (name ∷ names) s h =
        seed_clients-Holds seeds names _ (add_client_named-Keeps name [] (seeds name) s h)

    pub seed_if-Keeps :
        (fresh : Bool) (seeds : Text → Draw) (clients : Text)
        → Keeps key v (seed_if x25519 fresh seeds clients)
    unfolding seed_if
    seed_if-Keeps true seeds clients s h = seed_clients-Holds seeds (client_names clients) s h
    seed_if-Keeps false seeds clients s h = h

    backfill_from-Keeps :
        (now : ℕ) (d : ℕ → KeyDraw) (n : ℕ) (cs : List Client) (used : List Text)
        → Keeps key v (backfill_from x25519 now d n cs used)
    unfolding backfill_from
    backfill_from-Keeps now d n [] used s h = h
    backfill_from-Keeps now d n (c ∷ cs) used s h =
        elim (Bool-cases (is_complete (awg_or_empty c.awg))) [
          | inl e ↦ rw e (backfill_from-Keeps now d (suc n) cs used s h)
          | inr e ↦ rw e (elim (Result-cases (fill_awg x25519 (d n) used (awg_or_empty c.awg))) [
            | inl ((a, used'), q) ↦ rw q (
                continue-Keeps key v (wrap (add_client now (record c { awg = some a }) s).0)
                  (λ _. backfill_from x25519 now d (suc n) cs used')
                  (λ _. backfill_from-Keeps now d (suc n) cs used') _
                  (add_client-Keeps now (record c { awg = some a }) s h))
            | inr (x, q) ↦ rw q h
          ])
        ]

    pub backfill-Keeps :
        (now : ℕ) (d : ℕ → KeyDraw) → Keeps key v (backfill_client_awg x25519 now d)
    unfolding backfill_client_awg
    backfill-Keeps now d s h =
        continue-Keeps key v (wrap (get_clients s))
          (λ cs. backfill_from x25519 now d 0 cs (used_awg_addresses cs))
          (λ cs. backfill_from-Keeps now d 0 cs (used_awg_addresses cs)) s h

  abbrev Apart : Text → Type 0
  Apart other = (other == key) ≡ false

  pub ip_synced-Keeps :
      (answer : Text → Option Text) (is_ipv4 : Text → Bool)
      → Apart server_ip
      → Keeps key v (sync_server_ip answer is_ipv4 false)
  unfolding sync_server_ip sync_from
  ip_synced-Keeps answer is_ipv4 ne s h = elim (Result-cases (get_public_ipv4 answer is_ipv4)) [
    | inl (ip, e) ↦ rw e (ground (arith, ne, h, set_setting-Keeps key v server_ip ip ne s h))
    | inr (x, e) ↦ rw e h
  ]

  module _ (x25519 : Bytes → Option Bytes) where
    reality_keys-Keeps :
        (bytes : Option Bytes)
        → Apart reality_private_key
        → Apart reality_public_key
        → Keeps key v (reality_keys x25519 bytes)
    unfolding reality_keys reality_pair lookup
    reality_keys-Keeps none a b s h = h
    reality_keys-Keeps (some bytes) a b s h = elim (Option-cases (x25519 (clamp bytes))) [
      | inl e ↦ rw e h
      | inr (public, e) ↦ rw e (
          stored-Keeps key v true
            (set_settings (
              (reality_private_key, base64_encode raw_url_base64 (clamp bytes))
              ∷ (reality_public_key, base64_encode raw_url_base64 public)
              ∷ []))
            (set_settings-Keeps key v _ (ground (arith, a, b))) s h)
    ]

    pub ensure_reality_keys-Keeps :
        (bytes : Option Bytes)
        → Apart reality_private_key
        → Apart reality_public_key
        → Keeps key v (ensure_reality_keys x25519 bytes)
    unfolding ensure_reality_keys
    ensure_reality_keys-Keeps bytes a b s h = ground (arith, h, reality_keys-Keeps bytes a b s h)

    save_keys-Keeps :
        (header : Bytes) (keys : Result CoreError (Text × Text))
        → Apart awg_private_key
        → Apart awg_public_key
        → Apart awg_header_protection_key
        → Keeps key v (save_keys x25519 header keys)
    unfolding save_keys lookup
    save_keys-Keeps header (err e) a b c s h = h
    save_keys-Keeps header (ok (priv, public)) a b c s h =
        set_settings-Keeps key v
          ((awg_private_key, priv)
            ∷ (awg_public_key, public)
            ∷ (awg_header_protection_key, random_awg_secret header)
            ∷ [])
          (ground (arith, a, b, c)) s h

    pub ensure_awg_server_keys-Keeps :
        (d : KeyDraw)
        → Apart awg_private_key
        → Apart awg_public_key
        → Apart awg_header_protection_key
        → Keeps key v (ensure_awg_server_keys x25519 d)
    unfolding ensure_awg_server_keys
    ensure_awg_server_keys-Keeps d a b c s h = ground (
      arith,
      h,
      save_keys-Keeps d.psk_bytes (random_wg_key_pair x25519 d.private_bytes) a b c s h,
    )

  save_merged-Keeps :
      (merged : List Text × ℕ) → Apart protocols_key → Keeps key v (save_merged merged)
  unfolding save_merged
  save_merged-Keeps (merged, added) ne s h = elim (Bool-cases (ltb 0 added)) [
    | inl e ↦ rw e (
        stored-Keeps key v tt (set_setting protocols_key (join comma merged))
          (set_setting-Keeps key v protocols_key (join comma merged) ne) s h)
    | inr e ↦ rw e h
  ]

  pub merge-Keeps : Apart protocols_key → Keeps key v merge_default_protocols
  unfolding merge_default_protocols
  merge-Keeps ne s h = ground (
    arith,
    h,
    save_merged-Keeps (merge_missing (split_list (get protocols_key s)) default_protocols) ne s h,
  )

  module _ (codec : TransportCodec) where
    save_transport-Keeps :
        (t : Transport) → Apart transport_key → Keeps key v (save_transport codec t)
    unfolding save_transport
    save_transport-Keeps t ne s h = elim (Bool-cases (not (is_valid t))) [
      | inl e ↦ rw e h
      | inr e ↦ rw e (
          stored-Keeps key v tt (set_setting transport_key (codec.encode t))
            (set_setting-Keeps key v transport_key (codec.encode t) ne) s h)
    ]

    made-Keeps :
        (t : Transport) (r : Result SetupError (Unit {0}) × Store)
        → Holds key v r.1
        → Holds key v (made codec t r).1
    made-Keeps t (ok u, s) h = h
    made-Keeps t (err e, s) h = h

    load_transport-Keeps :
        (paths : RandomPaths) → is_blank v ≡ false → Keeps key v (load_transport codec paths)
    unfolding load_transport get
    load_transport-Keeps paths b s h = elim (Bool-cases (transport_key == key)) [
      | inl same ↦ ground (arith, same, b, h, get-Holds key v s h)
      | inr ne ↦ elim (Bool-cases (is_blank (or_blank (get_setting transport_key s)))) [
        | inl e ↦ rw e (
            made-Keeps (generate paths) (save_transport codec (generate paths) s)
              (save_transport-Keeps (generate paths) ne s h))
        | inr e ↦ rw e h
      ]
    ]

    loaded-Holds :
        (opts : Options) (s : Store) (r : Result SetupError Transport × Store)
        → Holds key v r.1
        → Holds key v (loaded codec opts s r).1
    loaded-Holds opts s (err e, t) h = h
    loaded-Holds opts s (ok tr, t) h = ground (arith, h)

    pub load-Keeps :
        (opts : Options) (paths : RandomPaths)
        → is_blank v ≡ false
        → Keeps key v (load codec opts paths)
    unfolding load
    load-Keeps opts paths b s h =
        loaded-Holds opts s (load_transport codec paths s) (load_transport-Keeps paths b s h)
