-- ===== src/Setup/Bootstrap/Keeps.antt =====
-- internal/setup/setup.go: what a start of the daemon leaves as it is.
use uncut_core.Base.{
  Bool-cases, ◌==◌, Result, ok, err, Exec, continue, ◌>>=◌, Result-cases, Map, lookup,
  lookup-insert, lookup-insert_all_absent, ℕ, ◌≡◌, ◌∙◌, inl, inr, false, none, some, List, [], ◌∷◌,
  arith,
}
use uncut_core.Text.{Text, text_eq, is_blank}
use uncut_core.Store.{
  select_setting, upsert_setting, DbError, Store, or_no_rows, get_setting, set_setting,
  set_settings,
}
use uncut_core.Store.Laws.{set_settings_atomic}
use uncut_core.Core.{CoreError}
use uncut_core.Core.Awg.{or_blank}
use uncut_core.Setup.{get, stored, setting_from, setting, core_step}
use uncut_core.Setup.Bootstrap.{random_hex, ensure_secrets, ensure_settings, store_given}

-- The setting `key` is stored as `v`, and can be read.
pub record Holds (key v : Text) (s : Store) : Type 0 where
  pub held : lookup key s.settings ≡ some v
  pub readable : s.broken (select_setting key) ≡ false

abbrev pub Keeps : Text → Text → {E A : Type 0} → Exec Store E A → Type 0
Keeps key v m = (s : Store) → Holds key v s → Holds key v (m s).1

module _ (key v : Text) where
  pub continue-Keeps :
      {E A B : Type 0} (r : Result E A) (f : A → Exec Store E B)
      → ((a : A) → Keeps key v (f a))
      → Keeps key v (continue r f)
  continue-Keeps (ok a) f h s held = h a s held
  continue-Keeps (err e) f h s held = held

  pub bind-Keeps :
      {E A B : Type 0} (m : Exec Store E A) (f : A → Exec Store E B)
      → Keeps key v m
      → ((a : A) → Keeps key v (f a))
      → Keeps key v (m >>= f)
  bind-Keeps m f km kf s held = continue-Keeps (m s).0 f kf (m s).1 (km s held)

  -- The same settings and the same failures.
  pub same-Holds :
      (s t : Store) → t.settings ≡ s.settings → t.broken ≡ s.broken → Holds key v s → Holds key v t
  same-Holds s t same same' h = record { held = rw same h.held; readable = rw same' h.readable }

  pub set_setting-Keeps :
      (other w : Text) → (other == key) ≡ false → Keeps key v (set_setting other w)
  unfolding set_setting
  set_setting-Keeps other w ne s h = elim (Bool-cases (s.broken (upsert_setting other))) [
    | inl e ↦ rw e h
    | inr e ↦ rw e (record {
      held = ground (arith, ne, lookup-insert other key w s.settings, h.held);
      readable = h.readable;
    })
  ]

  pub set_settings-Keeps :
      (kvs : Map Text Text) → lookup key kvs ≡ none → Keeps key v (set_settings kvs)
  set_settings-Keeps kvs absent s h = elim (set_settings_atomic kvs s) [
    | inl (_, e) ↦ rw e (record {
      held = lookup-insert_all_absent key s.settings kvs absent ∙ h.held;
      readable = h.readable;
    })
    | inr (_, e) ↦ rw e h
  ]

  pub get-Holds : (s : Store) → Holds key v s → get_setting key s ≡ ok v
  unfolding get_setting or_no_rows
  get-Holds s h = ground (arith, h.held, h.readable)

  pub stored-Keeps :
      {A : Type 0} (a : A) (m : Exec Store DbError (Unit {0}))
      → Keeps key v m
      → (s : Store) → Holds key v s
      → Holds key v (stored a (m s)).1
  stored-Keeps a m km s h = stored-pair a (m s) (km s h)
    where
      stored-pair :
          {A : Type 0} (a : A) (r : Result DbError (Unit {0}) × Store)
          → Holds key v r.1
          → Holds key v (stored a r).1
      stored-pair a (ok u, t) held = held
      stored-pair a (err e, t) held = held

  pub setting-Keeps : (other fallback : Text) → Keeps key v (setting other fallback)
  unfolding setting setting_from
  setting-Keeps other fallback s h = elim (Bool-cases (other == key)) [
    | inl same ↦ ground (arith, same, get-Holds s h, h)
    | inr ne ↦ elim (Result-cases (get_setting other s)) [
      | inl (w, e) ↦ rw e h
      | inr (x, e) ↦ rw e (elim (Bool-cases (is_blank fallback)) [
        | inl b ↦ rw b h
        | inr b ↦ rw b (
            stored-Keeps fallback (set_setting other fallback) (set_setting-Keeps other fallback ne)
              s h)
      ])
    ]
  ]

  pub ensure_settings-Keeps : (kvs : Map Text Text) → Keeps key v (ensure_settings kvs)
  unfolding ensure_settings
  ensure_settings-Keeps [] s h = h
  ensure_settings-Keeps ((other, fallback) ∷ kvs) s h =
      continue-Keeps (setting other fallback s).0 (λ _. ensure_settings kvs)
        (λ _. ensure_settings-Keeps kvs) (setting other fallback s).1
        (setting-Keeps other fallback s h)

  -- A secret that is there is not drawn again.
  pub ensure_secrets-Keeps :
      (bytes : Text → ℕ → ℕ) (keys : List (Text × ℕ))
      → is_blank v ≡ false
      → Keeps key v (ensure_secrets bytes keys)
  unfolding ensure_secrets get
  ensure_secrets-Keeps bytes [] b s h = h
  ensure_secrets-Keeps bytes ((other, n) ∷ keys) b s h = elim (Bool-cases (other == key)) [
    | inl same ↦ ground (arith, same, get-Holds s h, ensure_secrets-Keeps bytes keys b s h, b)
    | inr ne ↦ elim (Bool-cases (is_blank (or_blank (get_setting other s)))) [
      | inl e ↦ rw e (
          continue-Keeps (stored tt (set_setting other (random_hex n (bytes other)) s)).0
            (λ _. ensure_secrets bytes keys) (λ _. ensure_secrets-Keeps bytes keys b)
            (stored {A = Unit {0}} tt (set_setting other (random_hex n (bytes other)) s)).1
            (stored-Keeps tt (set_setting other (random_hex n (bytes other)))
              (set_setting-Keeps other (random_hex n (bytes other)) ne) s h))
      | inr e ↦ rw e (ensure_secrets-Keeps bytes keys b s h)
    ]
  ]

  pub store_given-Keeps :
      (kvs : Map Text Text) → lookup key kvs ≡ none → Keeps key v (store_given kvs)
  unfolding store_given lookup
  store_given-Keeps [] absent s h = h
  store_given-Keeps ((other, w) ∷ kvs) absent s h =
      let ne : (other == key) ≡ false = ground (arith, absent) in
      let rest : lookup key kvs ≡ none = ground (arith, absent) in
      elim (Bool-cases (is_blank w)) [
        | inl e ↦ rw e (store_given-Keeps kvs rest s h)
        | inr e ↦ rw e (
            continue-Keeps (stored tt (set_setting other w s)).0 (λ _. store_given kvs)
              (λ _. store_given-Keeps kvs rest) (stored {A = Unit {0}} tt (set_setting other w s)).1
              (stored-Keeps tt (set_setting other w) (set_setting-Keeps other w ne) s h))
      ]

  pub core_step-Keeps :
      {A : Type 0} (m : Exec Store CoreError A) → Keeps key v m → Keeps key v (λ s. core_step (m s))
  core_step-Keeps m km s h = pair_step (m s) (km s h)
    where
      pair_step :
          {A : Type 0} (r : Result CoreError A × Store)
          → Holds key v r.1
          → Holds key v (core_step r).1
      pair_step (ok a, t) held = held
      pair_step (err e, t) held = held

  pub get-of : (s : Store) → Holds key v s → get key s ≡ v
  unfolding get
  get-of s h = ground (arith, get-Holds s h)
