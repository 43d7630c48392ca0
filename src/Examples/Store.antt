-- ===== src/Examples/Store.antt =====
-- The store and its migration at concrete inputs.
use uncut_core.Base.{
  eqb, ok, err, Map, insert_all, ℕ, ◌+◌, ◌≤◌, ◌≡◌, refl, ◌⊎◌, false, [], ◌∷◌, arith,
}
use uncut_core.Text.{Text, codes, text_eq}
use uncut_core.Store.{
  Stmt, read_version, migration, DbError, failed, Store, set_settings, with_hash, scan_client,
  scan_rows, add_client, delete_client_row,
}
use uncut_core.Store.Laws.{
  set_settings_atomic, stamp, put_client, remove_client, Shows, add_client-Shows,
  delete_client-Shows,
}
use uncut_core.Store.Migrate.{
  rename_country, fill, backfill, default_explicit, default_awg, schema_version, step, run, migrate,
}
use uncut_core.Store.Migrate.Laws.{HasTokens, migrate_ok, migrate_err}
use uncut_core.Examples.Data.{alice, a_store, old_store}

abbrev tokens : ℕ → Text
tokens n = codes "0a"

migrated : (migrate tokens old_store).0 ≡ ok tt
unfolding migrate run step rename_country backfill fill default_explicit default_awg
migrated = refl

migrate_ok_example :
    ((migrate tokens old_store).1.version ≡ schema_version) × HasTokens (migrate tokens old_store).1
migrate_ok_example =
    migrate_ok tokens old_store (λ n. refl) (λ h. absurd (omega (arith, h))) (omega arith) migrated

-- The old store, where the third step fails.
abbrev stuck_store : Store
stuck_store = record old_store {
  broken = λ (s : Stmt). elim s [ migration n ↦ eqb n 3 | _ ↦ false ];
}

stopped : (migrate tokens stuck_store).0 ≡ err (failed (migration 3))
unfolding migrate run step rename_country backfill fill default_explicit default_awg
stopped = refl

migrate_err_example :
    (1 ≤ (migrate tokens stuck_store).1.version)
    × ((failed (migration 3) ≡ failed read_version) × ((migrate tokens stuck_store).1 ≡ stuck_store)
        ⊎ (failed (migration 3) ≡ failed (migration ((migrate tokens stuck_store).1.version + 1))))
migrate_err_example = migrate_err tokens stuck_store (omega arith) stopped

at_five : (migrate tokens old_store).1.version ≡ 5
unfolding migrate run step rename_country backfill fill default_explicit default_awg
at_five = refl

abbrev two_settings : Map Text Text
two_settings = (codes "tag", codes "nl") ∷ (codes "email", codes "a@n.example") ∷ []

set_settings_atomic_example :
    ((set_settings two_settings a_store).0 ≡ ok tt)
      × ((set_settings two_settings a_store).1
          ≡ record a_store { settings = insert_all a_store.settings two_settings })
    ⊎ ((e : DbError) × ((set_settings two_settings a_store).0 ≡ err e))
      × ((set_settings two_settings a_store).1 ≡ a_store)
set_settings_atomic_example = set_settings_atomic two_settings a_store

shown : Shows a_store (alice ∷ [])
unfolding scan_rows scan_client with_hash
shown = refl

add_client-Shows_example :
    ((add_client 9 alice a_store).0 ≡ ok tt)
      × Shows (add_client 9 alice a_store).1 (put_client (stamp 9 alice) (alice ∷ []))
    ⊎ ((e : DbError) × ((add_client 9 alice a_store).0 ≡ err e))
      × ((add_client 9 alice a_store).1 ≡ a_store)
add_client-Shows_example = add_client-Shows 9 alice a_store shown

delete_client-Shows_example :
    ((delete_client_row alice.uuid a_store).0 ≡ ok tt)
      × Shows (delete_client_row alice.uuid a_store).1 (remove_client alice.uuid (alice ∷ []))
    ⊎ ((e : DbError) × ((delete_client_row alice.uuid a_store).0 ≡ err e))
      × ((delete_client_row alice.uuid a_store).1 ≡ a_store)
delete_client-Shows_example = delete_client-Shows alice.uuid a_store shown
