-- ===== src/Store.antt =====
-- internal/db/store.go: the node's SQLite file, its statements and their errors.
--
-- A table is the list of its rows in the order of their rowids. `broken` says which statements the
-- database engine fails; a failed statement changes nothing.
pub mod Migrate
pub mod Laws
use uncut_core.Base.{
  eqb, if◌then◌else◌, ◌==◌, Result, ok, err, Exec, Map, lookup, insert, ℕ, Bool, Option, none, some,
  List, [], ◌∷◌,
}
use uncut_core.Text.{Text, text_eq}
use uncut_core.Config.{ClientAwg, Client}

pub data Stmt : Type 0 where
  select_setting : Text → Stmt
  upsert_setting : Text → Stmt
  begin commit : Stmt
  select_clients : Stmt
  select_client : Text → Stmt
  upsert_client : Text → Stmt
  delete_client : Text → Stmt
  read_version : Stmt
  migration : ℕ → Stmt
  restore_rows : ℕ → Stmt

pub data DbError : Type 0 where
  failed : Stmt → DbError
  no_rows : DbError
  null_column : DbError

-- A row of `clients`. The columns that hold JSON hold the value that it stands for; `sub_hash` may
-- be NULL in a row that is older than the token.
pub record Row : Type 0 where
  pub uuid : Text
  pub name : Text
  pub password : Text
  pub sub_hash : Option Text
  pub protocols_explicit : Bool
  pub protocols : List Text
  pub created_at : ℕ
  pub awg : Option ClientAwg

pub record Store : Type 0 where
  pub version : ℕ
  pub settings : Map Text Text
  pub rows : List Row
  pub broken : Stmt → Bool

unfoldable pub or_no_rows : Option Text → Result DbError Text
or_no_rows none = err no_rows
or_no_rows (some v) = ok v

unfoldable pub get_setting : Text → Store → Result DbError Text
unfolding or_no_rows lookup
get_setting key s =
    if s.broken (select_setting key)
    then err (failed (select_setting key))
    else or_no_rows (lookup key s.settings)

unfoldable pub set_setting : Text → Text → Exec Store DbError (Unit {0})
unfolding insert
set_setting key value s =
    if s.broken (upsert_setting key)
    then (err (failed (upsert_setting key)), s)
    else (ok tt, record s { settings = insert key value s.settings })

-- The writes of a transaction; an error is the first statement that fails.
unfoldable pub upsert_all :
    (Stmt → Bool) → Map Text Text → Map Text Text → Result DbError (Map Text Text)
unfolding insert
upsert_all broken [] m = ok m
upsert_all broken ((k, v) ∷ kvs) m =
    let rest = upsert_all broken kvs (insert k v m) in
    if broken (upsert_setting k) then err (failed (upsert_setting k)) else rest

-- `tx.Commit`
unfoldable pub commit_settings :
    Store → Result DbError (Map Text Text) → Result DbError (Unit {0}) × Store
commit_settings s (err e) = (err e, s)
commit_settings s (ok m) =
    if s.broken commit then (err (failed commit), s) else (ok tt, record s { settings = m })

-- Several keys in one transaction.
unfoldable pub set_settings : Map Text Text → Exec Store DbError (Unit {0})
unfolding upsert_all commit_settings
set_settings kvs s =
    if s.broken begin
    then (err (failed begin), s)
    else commit_settings s (upsert_all s.broken kvs s.settings)

unfoldable pub with_hash : Row → Text → Client
with_hash r hash = record {
  uuid = r.uuid;
  name = r.name;
  password = r.password;
  sub_hash = hash;
  protocols_explicit = r.protocols_explicit;
  protocols = r.protocols;
  created_at = r.created_at;
  awg = r.awg;
}

-- `scanClient`: a NULL does not scan into a string.
unfoldable pub scan_client : Row → Result DbError Client
unfolding with_hash
scan_client r = elim r.sub_hash [ none ↦ err null_column | some hash ↦ ok (with_hash r hash) ]

abbrev scan_next :
    Result DbError Client → Result DbError (List Client) → Result DbError (List Client)
scan_next (err e) rest = err e
scan_next (ok c) (err e) = err e
scan_next (ok c) (ok cs) = ok (c ∷ cs)

unfoldable pub scan_rows : List Row → Result DbError (List Client)
unfolding scan_client
scan_rows [] = ok []
scan_rows (r ∷ rs) = scan_next (scan_client r) (scan_rows rs)

unfoldable pub get_clients : Store → Result DbError (List Client)
get_clients s = if s.broken select_clients then err (failed select_clients) else scan_rows s.rows

scan_first : Text → List Row → Result DbError Client
unfolding scan_client
scan_first uuid [] = err no_rows
scan_first uuid (r ∷ rs) = if r.uuid == uuid then scan_client r else scan_first uuid rs

unfoldable pub get_client_by_uuid : Text → Store → Result DbError Client
unfolding scan_first
get_client_by_uuid uuid s =
    if s.broken (select_client uuid)
    then err (failed (select_client uuid))
    else scan_first uuid s.rows

-- The row that the insert writes; `now` stands in for a creation time that is zero.
unfoldable pub row_of : ℕ → Client → Row
row_of now c = record {
  uuid = c.uuid;
  name = c.name;
  password = c.password;
  sub_hash = some c.sub_hash;
  protocols_explicit = c.protocols_explicit;
  protocols = c.protocols;
  created_at = if eqb c.created_at 0 then now else c.created_at;
  awg = c.awg;
}

-- `INSERT … ON CONFLICT(uuid) DO UPDATE`: the row of that uuid keeps its place.
unfoldable pub upsert_row : Row → List Row → List Row
upsert_row row [] = row ∷ []
upsert_row row (r ∷ rs) = if r.uuid == row.uuid then row ∷ rs else r ∷ upsert_row row rs

unfoldable pub add_client : ℕ → Client → Exec Store DbError (Unit {0})
unfolding row_of upsert_row
add_client now c s =
    if s.broken (upsert_client c.uuid)
    then (err (failed (upsert_client c.uuid)), s)
    else (ok tt, record s { rows = upsert_row (row_of now c) s.rows })

unfoldable pub delete_rows : Text → List Row → List Row
delete_rows uuid [] = []
delete_rows uuid (r ∷ rs) =
    let rest = delete_rows uuid rs in if r.uuid == uuid then rest else r ∷ rest

unfoldable pub delete_client_row : Text → Exec Store DbError (Unit {0})
unfolding delete_rows
delete_client_row uuid s =
    if s.broken (delete_client uuid)
    then (err (failed (delete_client uuid)), s)
    else (ok tt, record s { rows = delete_rows uuid s.rows })

-- `Restore`, from the rows of a backup that has been staged and migrated: four statements in one
-- transaction.
unfoldable pub restore : Result DbError Store → Exec Store DbError (Unit {0})
restore (err e) s = (err e, s)
restore (ok b) s =
    if s.broken begin
    then (err (failed begin), s)
    else if s.broken (restore_rows 0)
    then (err (failed (restore_rows 0)), s)
    else if s.broken (restore_rows 1)
    then (err (failed (restore_rows 1)), s)
    else if s.broken (restore_rows 2)
    then (err (failed (restore_rows 2)), s)
    else if s.broken (restore_rows 3)
    then (err (failed (restore_rows 3)), s)
    else if s.broken commit
    then (err (failed commit), s)
    else (ok tt, record s { settings = b.settings; rows = b.rows })
