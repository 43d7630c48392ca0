-- ===== src/Store/Migrate/Laws.antt =====
-- What `migrate` of internal/db/store.go leaves: the schema version, the tokens, the tag.
use uncut_core.Base.{
  Bool-cases, All, ◌==◌, ok, err, Map, lookup, insert, lookup-insert, lookup-erase, ℕ, zero, suc,
  ◌+◌, ◌-◌, ◌≤◌, ◌<◌, ◌≡◌, refl, ◌⊎◌, inl, inr, false, Option, none, some, List, [], ◌∷◌, map,
  arith,
}
use uncut_core.Text.{Text, Text-discrete, text_eq, is_blank}
use uncut_core.Store.{read_version, migration, DbError, failed, Row, Store}
use uncut_core.Store.Migrate.{
  country_key, tag_key, rename_country, fill, backfill, default_awg, schema_version, step, run,
  migrate,
}

abbrev HasText : Option Text → Type 0
HasText none = ⊥
HasText (some h) = is_blank h ≡ false

-- Every client has a subscription token.
abbrev pub HasTokens : Store → Type 0
HasTokens s = All (λ r. HasText r.sub_hash) s.rows

fill-HasText :
    (token : Text) (r : Row) (o : Option Text)
    → r.sub_hash ≡ o
    → is_blank token ≡ false
    → HasText (fill token r o).sub_hash
unfolding fill
fill-HasText token r none e h = h
fill-HasText token r (some []) e h = h
fill-HasText token r (some (c ∷ t)) e h = rw e refl

module _ (fresh : ℕ → Text) (not_blank : (n : ℕ) → is_blank (fresh n) ≡ false) where
  backfill-HasTokens :
      (n : ℕ) (rows : List Row) → All (λ r. HasText r.sub_hash) (backfill fresh n rows)
  unfolding backfill
  backfill-HasTokens n [] = tt
  backfill-HasTokens n (r ∷ rs) =
      (fill-HasText (fresh n) r r.sub_hash refl (not_blank n), backfill-HasTokens (suc n) rs)

map-HasTokens :
    (f : Row → Row) (rows : List Row)
    → ((r : Row) → (f r).sub_hash ≡ r.sub_hash)
    → All (λ r. HasText r.sub_hash) rows
    → All (λ r. HasText r.sub_hash) (map f rows)
map-HasTokens f [] same h = tt
map-HasTokens f (r ∷ rs) same h = (rw (same r) h.0, map-HasTokens f rs same h.1)

module _ (fresh : ℕ → Text) (not_blank : (n : ℕ) → is_blank (fresh n) ≡ false) where
  step-HasTokens : (v : ℕ) (s : Store) → (4 < v → HasTokens s) → 4 ≤ v → HasTokens (step fresh v s)
  unfolding step
  step-HasTokens v s h le = ground (
    arith,
    backfill-HasTokens fresh not_blank 0 s.rows,
    map-HasTokens default_awg s.rows (λ r. refl),
  )

  run-HasTokens :
      (left : ℕ) (s : Store)
      → (4 ≤ s.version → HasTokens s)
      → 4 ≤ (run fresh left s).1.version
      → HasTokens (run fresh left s).1
  unfolding run
  run-HasTokens zero s h le = h le
  run-HasTokens (suc left) s h le = elim (Bool-cases (s.broken (migration (s.version + 1)))) [
    | inl e ↦ rw e (h (rw e at le))
    | inr e ↦ rw e (
        run-HasTokens left (record (step fresh (s.version + 1) s) { version = s.version + 1 })
          (step-HasTokens (s.version + 1) s (λ lt. h (omega arith))) (rw e at le))
  ]

-- `run` goes up to the version that it is told, or stops below the step that fails.
run_version :
    (fresh : ℕ → Text) (left : ℕ) (s : Store)
    → ((run fresh left s).0 ≡ ok tt) × ((run fresh left s).1.version ≡ s.version + left)
      ⊎ ((run fresh left s).0 ≡ err (failed (migration ((run fresh left s).1.version + 1))))
        × (s.version ≤ (run fresh left s).1.version)
        × ((run fresh left s).1.version < s.version + left)
unfolding run
run_version fresh zero s = inl (refl, omega arith)
run_version fresh (suc left) s = elim (Bool-cases (s.broken (migration (s.version + 1)))) [
  | inl e ↦ rw e (inr (refl, omega arith, omega arith))
  | inr e ↦ rw e (
      ground (
        arith,
        run_version fresh left (record (step fresh (s.version + 1) s) { version = s.version + 1 }),
      ))
]

-- From a version up to the current one, with tokens that are not blank, and with a token in every
-- row already where the version is 4 or above, a migration that returns no error leaves the
-- current version and a token in every row.
pub migrate_ok :
    (fresh : ℕ → Text) (s : Store)
    → ((n : ℕ) → is_blank (fresh n) ≡ false)
    → (4 ≤ s.version → HasTokens s)
    → s.version ≤ schema_version
    → (migrate fresh s).0 ≡ ok tt
    → ((migrate fresh s).1.version ≡ schema_version) × HasTokens (migrate fresh s).1
unfolding migrate
migrate_ok fresh s nb h le e = ground (
  arith,
  run_version fresh (schema_version - s.version) s,
  run-HasTokens fresh nb (schema_version - s.version) s h,
)

-- From a version up to the current one, a migration that fails never lowers the version; either
-- the version could not be read and nothing has changed, or the error is that of the step after
-- the version that is reached.
pub migrate_err :
    (fresh : ℕ → Text) (s : Store) {e : DbError}
    → s.version ≤ schema_version
    → (migrate fresh s).0 ≡ err e
    → (s.version ≤ (migrate fresh s).1.version)
      × ((e ≡ failed read_version) × ((migrate fresh s).1 ≡ s)
          ⊎ (e ≡ failed (migration ((migrate fresh s).1.version + 1))))
unfolding migrate
migrate_err fresh s le h = ground (arith, run_version fresh (schema_version - s.version) s)

-- A store at the current schema is left alone.
pub migrate_current :
    (fresh : ℕ → Text) (s : Store) → s.version ≡ schema_version → (migrate fresh s).1 ≡ s
unfolding migrate run
migrate_current fresh s e = ground arith

run_settings :
    (fresh : ℕ → Text) (left : ℕ) (s : Store)
    → 2 ≤ s.version
    → (run fresh left s).1.settings ≡ s.settings
unfolding run step
run_settings fresh zero s h = refl
run_settings fresh (suc left) s h = ground (
  arith,
  run_settings fresh left (record (step fresh (s.version + 1) s) { version = s.version + 1 }),
)

-- The value that v2 leaves under `tag`.
abbrev pub tag_after : Option Text → Option Text → Option Text
tag_after country none = country
tag_after country (some tag) = some tag

tag-ne-country : (tag_key == country_key) ≡ false
unfolding tag_key country_key Text-discrete
tag-ne-country = refl

country-ne-tag : (country_key == tag_key) ≡ false
unfolding tag_key country_key Text-discrete
country-ne-tag = refl

rename_country_lem :
    (m : Map Text Text) (country tag : Option Text)
    → lookup country_key m ≡ country
    → lookup tag_key m ≡ tag
    → (lookup tag_key (rename_country country tag m) ≡ tag_after country tag)
      × (lookup country_key (rename_country country tag m) ≡ none)
unfolding rename_country
rename_country_lem m none none hc ht = ground (
  arith,
  lookup-erase country_key tag_key m,
  lookup-erase country_key country_key m,
  country-ne-tag,
)
rename_country_lem m none (some t) hc ht = ground (
  arith,
  lookup-erase country_key tag_key m,
  lookup-erase country_key country_key m,
  country-ne-tag,
)
rename_country_lem m (some c) (some t) hc ht = ground (
  arith,
  lookup-erase country_key tag_key m,
  lookup-erase country_key country_key m,
  country-ne-tag,
)
rename_country_lem m (some c) none hc ht = ground (
  arith,
  lookup-erase country_key tag_key (insert tag_key c m),
  lookup-erase country_key country_key (insert tag_key c m),
  lookup-insert tag_key tag_key c m,
  country-ne-tag,
)

run_rename :
    (fresh : ℕ → Text) (left : ℕ) (s : Store)
    → s.version < 2
    → 2 ≤ (run fresh left s).1.version
    → (run fresh left s).1.settings
      ≡ rename_country (lookup country_key s.settings) (lookup tag_key s.settings) s.settings
unfolding run step
run_rename fresh zero s lt le = absurd (omega arith)
run_rename fresh (suc left) s lt le = ground (
  arith,
  run_rename fresh left (record (step fresh (s.version + 1) s) { version = s.version + 1 }),
  run_settings fresh left (record (step fresh (s.version + 1) s) { version = s.version + 1 }),
)

-- Migrating a store from before version 2, once version 2 is reached, leaves the value of the
-- country under the tag, unless there was a tag, and no country.
pub migrate_tag :
    (fresh : ℕ → Text) (s : Store)
    → s.version < 2
    → 2 ≤ (migrate fresh s).1.version
    → (lookup tag_key (migrate fresh s).1.settings
        ≡ tag_after (lookup country_key s.settings) (lookup tag_key s.settings))
      × (lookup country_key (migrate fresh s).1.settings ≡ none)
unfolding migrate
migrate_tag fresh s lt le = ground (
  arith,
  run_rename fresh (schema_version - s.version) s,
  rename_country_lem s.settings (lookup country_key s.settings) (lookup tag_key s.settings),
)
