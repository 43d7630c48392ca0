-- ===== src/Setup/Protocols.antt =====
-- internal/setup/setup.go: the stored protocol list.
pub mod Laws
pub mod Entries
use uncut_core.Base.{
  ltb, if◌then◌else◌, length, ◌==◌, contains, ok, Exec, ℕ, List, [], ◌∷◌, ◌++◌, map,
}
use uncut_core.Text.{Text, codes, text_eq, is_blank}
use uncut_core.Text.Trim.{trim_space}
use uncut_core.Text.Split.{split, join}
use uncut_core.Config.Protocols.{default_protocols}
use uncut_core.Store.{Store, set_setting}
use uncut_core.Setup.{SetupError, get, stored}

-- The parts that are not blank, trimmed.
unfoldable pub trimmed_parts : List Text → List Text
trimmed_parts [] = []
trimmed_parts (p ∷ ps) =
    let rest = trimmed_parts ps in if is_blank (trim_space p) then rest else trim_space p ∷ rest

unfoldable pub split_list : Text → List Text
unfolding trimmed_parts split
split_list value = if is_blank (trim_space value) then [] else trimmed_parts (split b',' value)

-- The rounds of the second loop; `seen` are the keys of the map.
unfoldable pub missing_from : List Text → List Text → List Text
missing_from seen [] = []
missing_from seen (p ∷ want) =
    let skipped = missing_from seen want in
    let added = p ∷ missing_from (p ∷ seen) want in if contains seen p then skipped else added

-- The list with the missing entries behind it, and their count.
unfoldable pub merge_missing : List Text → List Text → List Text × ℕ
unfolding missing_from
merge_missing base want =
    let missing = missing_from (map trim_space base) want in (base ++ missing, length missing)

unfoldable pub protocols_key : Text
protocols_key = codes "protocols"

unfoldable pub protocols_explicit_key : Text
protocols_explicit_key = codes "protocols_explicit"

unfoldable pub explicit_mark : Text
explicit_mark = codes "true"

abbrev pub comma : Text
comma = b',' ∷ []

unfoldable pub save_merged : List Text × ℕ → Exec Store SetupError (Unit {0})
unfolding protocols_key join
save_merged (merged, added) s =
    if ltb 0 added then stored tt (set_setting protocols_key (join comma merged) s) else (ok tt, s)

unfoldable pub merge_default_protocols : Exec Store SetupError (Unit {0})
unfolding save_merged merge_missing split_list get protocols_key protocols_explicit_key
    explicit_mark default_protocols
merge_default_protocols s =
    if get protocols_explicit_key s == explicit_mark
    then (ok tt, s)
    else save_merged (merge_missing (split_list (get protocols_key s)) default_protocols) s
