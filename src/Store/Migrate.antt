-- ===== src/Store/Migrate.antt =====
-- `migrate` of internal/db/store.go: the schema steps past `user_version`, one transaction each.
pub mod Laws
use uncut_core.Base.{
  eqb, if◌then◌else◌, ok, err, Exec, Map, lookup, insert, erase, ℕ, zero, suc, ◌+◌, ◌-◌, false,
  Option, none, some, List, [], ◌∷◌, map,
}
use uncut_core.Text.{Text, codes, text_eq}
use uncut_core.Store.{read_version, migration, DbError, failed, Row, Store}

unfoldable pub country_key : Text
country_key = codes "country"

unfoldable pub tag_key : Text
tag_key = codes "tag"

-- v2: the tag takes the value of the country, unless there is a tag; the country goes.
unfoldable pub rename_country : Option Text → Option Text → Map Text Text → Map Text Text
rename_country (some v) none m = erase country_key (insert tag_key v m)
rename_country _ _ m = erase country_key m

-- v4: a token for a row that has none, or a blank one.
unfoldable pub fill : Text → Row → Option Text → Row
fill token r none = record r { sub_hash = some token }
fill token r (some []) = record r { sub_hash = some token }
fill token r (some (c ∷ h)) = r

-- `fresh n` is the random token of the n-th row.
unfoldable pub backfill : (ℕ → Text) → ℕ → List Row → List Row
unfolding fill
backfill fresh n [] = []
backfill fresh n (r ∷ rs) = fill (fresh n) r r.sub_hash ∷ backfill fresh (suc n) rs

-- v3 and v5: the columns that they add hold the default in every row.
unfoldable pub default_explicit : Row → Row
default_explicit r = record r { protocols_explicit = false }

unfoldable pub default_awg : Row → Row
default_awg r = record r { awg = none }

abbrev pub schema_version : ℕ
schema_version = 5

-- The data of a store after the step to version `v`.
unfoldable pub step : (ℕ → Text) → ℕ → Store → Store
unfolding rename_country backfill default_explicit default_awg
step fresh v s =
    if eqb v 2
    then record s {
      settings =
          rename_country (lookup country_key s.settings) (lookup tag_key s.settings) s.settings;
    }
    else if eqb v 3
    then record s { rows = map default_explicit s.rows }
    else if eqb v 4
    then record s { rows = backfill fresh 0 s.rows }
    else if eqb v 5
    then record s { rows = map default_awg s.rows }
    else s

-- The loop over the versions that are left; each is committed before the next.
unfoldable pub run : (ℕ → Text) → ℕ → Exec Store DbError (Unit {0})
run fresh zero s = (ok tt, s)
run fresh (suc left) s =
    let v = s.version + 1 in
    let rest = run fresh left (record (step fresh v s) { version = v }) in
    if s.broken (migration v) then (err (failed (migration v)), s) else rest

unfoldable pub migrate : (ℕ → Text) → Exec Store DbError (Unit {0})
unfolding run step
migrate fresh s =
    if s.broken read_version
    then (err (failed read_version), s)
    else run fresh (schema_version - s.version) s
