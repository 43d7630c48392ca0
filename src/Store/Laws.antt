-- ===== src/Store/Laws.antt =====
-- Reads after writes, and transactions, of internal/db/store.go.
use uncut_core.Base.{
  eqb, if◌then◌else◌, Option-cases, ◌==◌, Result, ok, err, Result-cases, Map, insert, insert_all,
  lookup-insert, ℕ, ◌≡◌, refl, ◌⊎◌, inl, inr, Bool, false, some, List, [], ◌∷◌, arith,
}
use uncut_core.Text.{Text, text_eq}
use uncut_core.Config.{Client}
use uncut_core.Store.{
  Stmt, select_setting, select_clients, select_client, DbError, failed, no_rows, Row, Store,
  or_no_rows, get_setting, set_setting, upsert_all, commit_settings, set_settings, with_hash,
  scan_client, scan_rows, get_clients, scan_first, get_client_by_uuid, row_of, upsert_row,
  add_client, delete_rows, delete_client_row,
}

upsert_all_ok :
    (broken : Stmt → Bool) (kvs m : Map Text Text) {m' : Map Text Text}
    → upsert_all broken kvs m ≡ ok m'
    → m' ≡ insert_all m kvs
unfolding upsert_all insert_all
upsert_all_ok broken [] m h = ground arith
upsert_all_ok broken ((k, v) ∷ kvs) m {m'} h =
    ground (arith, upsert_all_ok broken kvs (insert k v m) {m' = m'})

-- A write of several settings lands whole, or it returns an error and changes nothing.
pub set_settings_atomic :
    (kvs : Map Text Text) (s : Store)
    → ((set_settings kvs s).0 ≡ ok tt)
        × ((set_settings kvs s).1 ≡ record s { settings = insert_all s.settings kvs })
      ⊎ ((e : DbError) × ((set_settings kvs s).0 ≡ err e)) × ((set_settings kvs s).1 ≡ s)
unfolding set_settings commit_settings
set_settings_atomic kvs s = elim (Result-cases (upsert_all s.broken kvs s.settings)) [
  | inl (m, e) ↦ ground (arith, e, upsert_all_ok s.broken kvs s.settings {m' = m} e)
  | inr (x, e) ↦ ground (arith, e)
]

-- A read after a successful write of one setting.
pub get_setting-set_setting :
    (k j v : Text) (s : Store)
    → (set_setting k v s).0 ≡ ok tt
    → s.broken (select_setting j) ≡ false
    → get_setting j (set_setting k v s).1 ≡ (if k == j then ok v else get_setting j s)
unfolding get_setting set_setting or_no_rows
get_setting-set_setting k j v s w r = ground (arith, lookup-insert k j v s.settings)

-- The client that a write stores: a zero creation time is replaced.
unfoldable pub stamp : ℕ → Client → Client
stamp now c = record c { created_at = if eqb c.created_at 0 then now else c.created_at }

-- The abstract view of the table: the clients in order, one for a uuid.
unfoldable pub put_client : Client → List Client → List Client
put_client c [] = c ∷ []
put_client c (d ∷ ds) = if d.uuid == c.uuid then c ∷ ds else d ∷ put_client c ds

unfoldable pub remove_client : Text → List Client → List Client
remove_client uuid [] = []
remove_client uuid (c ∷ cs) =
    let rest = remove_client uuid cs in if c.uuid == uuid then rest else c ∷ rest

unfoldable pub find_client_by : Text → List Client → Result DbError Client
find_client_by uuid [] = err no_rows
find_client_by uuid (c ∷ cs) = if c.uuid == uuid then ok c else find_client_by uuid cs

-- A row that scans, and the rest.
scan_rows-cons :
    (r : Row) (rs : List Row) {cs : List Client}
    → scan_rows (r ∷ rs) ≡ ok cs
    → (hash : Text) × (ds : List Client) × (r.sub_hash ≡ some hash)
      × (scan_rows rs ≡ ok ds)
      × (cs ≡ with_hash r hash ∷ ds)
unfolding scan_rows scan_client
scan_rows-cons r rs {cs} h = elim (Option-cases r.sub_hash) [
  | inl e ↦ ground (arith, e)
  | inr (hash, e) ↦ elim (Result-cases (scan_rows rs)) [
    | inl (ds, e') ↦ (hash, ds, e, e', ground (arith, e, e'))
    | inr (x, e') ↦ ground (arith, e, e')
  ]
]

scan-row_of : (now : ℕ) (c : Client) → scan_client (row_of now c) ≡ ok (stamp now c)
unfolding scan_client row_of stamp with_hash
scan-row_of now c = refl

scan_rows-upsert :
    (now : ℕ) (c : Client) (rs : List Row) {cs : List Client}
    → scan_rows rs ≡ ok cs
    → scan_rows (upsert_row (row_of now c) rs) ≡ ok (put_client (stamp now c) cs)
unfolding upsert_row put_client scan_rows scan_client row_of stamp with_hash
scan_rows-upsert now c [] h = ground arith
scan_rows-upsert now c (r ∷ rs) h =
    let (hash, ds, e, e', same) = scan_rows-cons r rs h in
    ground (arith, e, e', same, scan_rows-upsert now c rs e')

scan_rows-delete :
    (uuid : Text) (rs : List Row) {cs : List Client}
    → scan_rows rs ≡ ok cs
    → scan_rows (delete_rows uuid rs) ≡ ok (remove_client uuid cs)
unfolding delete_rows remove_client scan_rows scan_client with_hash
scan_rows-delete uuid [] h = ground arith
scan_rows-delete uuid (r ∷ rs) h =
    let (hash, ds, e, e', same) = scan_rows-cons r rs h in
    ground (arith, e, e', same, scan_rows-delete uuid rs e')

scan_first-find :
    (uuid : Text) (rs : List Row) {cs : List Client}
    → scan_rows rs ≡ ok cs
    → scan_first uuid rs ≡ find_client_by uuid cs
unfolding scan_first find_client_by scan_client with_hash scan_rows
scan_first-find uuid [] h = ground arith
scan_first-find uuid (r ∷ rs) h =
    let (hash, ds, e, e', same) = scan_rows-cons r rs h in
    ground (arith, e, e', same, scan_first-find uuid rs e')

-- The store shows these clients: every row scans.
abbrev pub Shows : Store → List Client → Type 0
Shows s cs = scan_rows s.rows ≡ ok cs

-- On a store whose rows read as a list of clients, a write of a client replaces the client of that
-- uuid in place, or adds it at the end; a write that fails changes nothing.
pub add_client-Shows :
    (now : ℕ) (c : Client) (s : Store) {cs : List Client}
    → Shows s cs
    → ((add_client now c s).0 ≡ ok tt) × Shows (add_client now c s).1 (put_client (stamp now c) cs)
      ⊎ ((e : DbError) × ((add_client now c s).0 ≡ err e)) × ((add_client now c s).1 ≡ s)
unfolding add_client
add_client-Shows now c s h = ground (arith, scan_rows-upsert now c s.rows h)

-- On a store whose rows read as a list of clients, a deletion removes the clients of that uuid
-- from the list; one that fails changes nothing.
pub delete_client-Shows :
    (uuid : Text) (s : Store) {cs : List Client}
    → Shows s cs
    → ((delete_client_row uuid s).0 ≡ ok tt)
        × Shows (delete_client_row uuid s).1 (remove_client uuid cs)
      ⊎ ((e : DbError) × ((delete_client_row uuid s).0 ≡ err e))
        × ((delete_client_row uuid s).1 ≡ s)
unfolding delete_client_row
delete_client-Shows uuid s h = ground (arith, scan_rows-delete uuid s.rows h)

-- What the reads return of a store that shows `cs`.
pub get_clients-Shows :
    (s : Store) {cs : List Client}
    → Shows s cs
    → get_clients s ≡ (if s.broken select_clients then err (failed select_clients) else ok cs)
unfolding get_clients
get_clients-Shows s h = ground arith

pub get_client_by_uuid-Shows :
    (uuid : Text) (s : Store) {cs : List Client}
    → Shows s cs
    → get_client_by_uuid uuid s ≡ (
        if s.broken (select_client uuid)
        then err (failed (select_client uuid))
        else find_client_by uuid cs)
unfolding get_client_by_uuid
get_client_by_uuid-Shows uuid s h = rw (scan_first-find uuid s.rows h)

pub find-put :
    (uuid : Text) (c : Client) (cs : List Client)
    → find_client_by uuid (put_client c cs)
      ≡ (if c.uuid == uuid then ok c else find_client_by uuid cs)
unfolding find_client_by put_client
find-put uuid c [] = refl
find-put uuid c (d ∷ ds) = ground (arith, find-put uuid c ds)

pub find-remove :
    (uuid j : Text) (cs : List Client)
    → find_client_by j (remove_client uuid cs)
      ≡ (if uuid == j then err no_rows else find_client_by j cs)
unfolding find_client_by remove_client
find-remove uuid j [] = ground arith
find-remove uuid j (d ∷ ds) = ground (arith, find-remove uuid j ds)
