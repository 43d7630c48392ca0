-- ===== src/Nodeops/Names/Apart.antt =====
-- internal/nodeops/nodeops.go: the names that the TLS splitter tells apart.
use uncut_core.Base.{
  ok, Exec, pure, lift, continue, ◌>>◌, continue-ok, ◌≡◌, ◌∙◌, ◌≢◌, true, false, arith,
}
use uncut_core.Text.{Text, is_blank}
use uncut_core.Config.{Settings}
use uncut_core.Store.{select_setting, Store, set_setting}
use uncut_core.Setup.{get}
use uncut_core.Setup.Protocols.Laws.{get-set_setting}
use uncut_core.Nodeops.{NodeError, Context, from_db, loaded_settings, reloaded, save}
use uncut_core.Nodeops.Names.{host_of, tls_domain_key, tls_domain_allowed, set_mtproto_tls_domain}
use uncut_core.Nodeops.Numbers.Laws.{from_db-ok}

-- A FakeTLS domain that the checks let through.
pub record IsAllowed (k : Context) (domain : Text) (settings : Settings) : Type 0 where
  pub not_node : domain ≢ host_of settings.domain
  pub not_sni : domain ≢ host_of settings.reality_server_name
  pub resolved : k.resolves domain ≡ true
  pub reached : k.reachable domain ≡ true

tls_domain_allowed-ok :
    (k : Context) (domain : Text) (settings : Settings) {u : Unit {0}}
    → tls_domain_allowed k domain settings ≡ ok u
    → IsAllowed k domain settings
unfolding tls_domain_allowed
tls_domain_allowed-ok k domain settings h = record {
  not_node = λ e. ground (arith, h, e);
  not_sni = λ e. ground (arith, h, e);
  resolved = ground (arith, h);
  reached = ground (arith, h);
}

-- What follows the loading of the settings.
abbrev checked_save : Context → Text → Settings → Exec Store NodeError Text
checked_save k host settings =
    lift (tls_domain_allowed k host settings)
    >> (save tls_domain_key host >> (reloaded k >> pure host))

save-get :
    (k : Context) (host : Text) (s : Store) {d : Text}
    → (continue
        (save tls_domain_key host s).0
        (λ _. reloaded k >> pure host)
        (save tls_domain_key host s).1).0
      ≡ ok d
    → s.broken (select_setting tls_domain_key) ≡ false
    → get tls_domain_key
        (continue
          (save tls_domain_key host s).0
          (λ _. reloaded k >> pure host)
          (save tls_domain_key host s).1).1
      ≡ host
unfolding save reloaded
save-get k host s h r =
    let w = set_setting tls_domain_key host s in
    let (u, e, q) = continue-ok (from_db w.0) (λ _. reloaded k >> pure host) w.1 h in
    let (u', e', q') = continue-ok (reloaded k w.1).0 (λ _. pure host) w.1 (rw q at h) in
    rw (q ∙ q') (get-set_setting tls_domain_key host s (from_db-ok w.0 u e) r)

checked_save_lem :
    (k : Context) (host : Text) (settings : Settings) (s : Store) {d : Text}
    → (checked_save k host settings s).0 ≡ ok d
    → s.broken (select_setting tls_domain_key) ≡ false
    → IsAllowed k host settings × (get tls_domain_key (checked_save k host settings s).1 ≡ host)
checked_save_lem k host settings s h r =
    let (u, e, q) =
      continue-ok (tls_domain_allowed k host settings)
        (λ _. save tls_domain_key host >> (reloaded k >> pure host)) s h in
    (tls_domain_allowed-ok k host settings e, rw q (save-get k host s (rw q at h) r))

-- A FakeTLS domain that is not blank and is set without an error has been checked against the
-- node domain and the REALITY SNI of the loaded settings, resolves and is reachable, and is what
-- the setting reads as from then on, where reading it does not fail.
pub set_mtproto_tls_domain_lem :
    (k : Context) (domain : Text) (s : Store) {d : Text}
    → is_blank (host_of domain) ≡ false
    → (set_mtproto_tls_domain k domain s).0 ≡ ok d
    → (loaded_settings k s).1.broken (select_setting tls_domain_key) ≡ false
    → (settings : Settings) × ((loaded_settings k s).0 ≡ ok settings)
      × IsAllowed k (host_of domain) settings
      × (get tls_domain_key (set_mtproto_tls_domain k domain s).1 ≡ host_of domain)
unfolding set_mtproto_tls_domain
set_mtproto_tls_domain_lem k domain s {d} b h r =
    let host = host_of domain in
    let loaded_state = (loaded_settings k s).1 in
    let (settings, e, q) =
      continue-ok (loaded_settings k s).0 (checked_save k host) loaded_state {b = d} (rw b at h) in
    let (allowed, stored_as) =
      checked_save_lem k host settings loaded_state {d = d} (rw (b, q) at h) r in
    (settings, e, allowed, rw b (rw q stored_as))
