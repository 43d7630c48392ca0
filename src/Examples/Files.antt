-- ===== src/Examples/Files.antt =====
-- Checked writes at concrete inputs.
use uncut_core.Base.{
  if◌then◌else◌, contains, Distinct, ok, Map, lookup, insert, ◌≡◌, refl, subst, true, false, none,
  some, [], ◌∷◌, arith,
}
use uncut_core.Text.{Text, codes, Text-discrete, text_eq}
use uncut_core.Config.{Client}
use uncut_core.Store.{with_hash, scan_client, scan_rows, get_clients}
use uncut_core.Core.Subscriptions.Files.{sub_hashes, regenerate_all_subscriptions}
use uncut_core.Core.Subscriptions.Files.Sweep.{present, regenerate_all_subscriptions_lem}
use uncut_core.Examples.Data.{alice, a_store}
use uncut_core.Files.{Disk, write_file_atomic, content, read_file, join_path}
use uncut_core.Files.Checked.{
  check_failure, keep_previous, write_changed, put_back, Check, checked, write_checked,
}
use uncut_core.Files.Checked.Laws.{paths, or_else}
use uncut_core.Files.Checked.Retry.{succeeds, write_checked_lem, write_checked_retry}

abbrev a_disk : Disk
a_disk = record {
  files = (codes "/a", record { bytes = codes "old"; perm = 420 }) ∷ [];
  temps = [];
  broken = λ _. false;
}

abbrev two_files : Map Text Text
two_files = (codes "/a", codes "new") ∷ (codes "/b", codes "new") ∷ []

abbrev refuses : Check
refuses = some (λ d. some (codes "bad"))

two_apart : Distinct (paths two_files)
unfolding Text-discrete
two_apart = (refl, (refl, tt))

write_checked_lem_example : content (codes "/a") (write_checked two_files 420 refuses a_disk).1 ≡ (
    if succeeds (write_checked two_files 420 refuses a_disk).0.failure
    then or_else (lookup (codes "/a") two_files) (content (codes "/a") a_disk)
    else or_else (content (codes "/a") a_disk) (lookup (codes "/a") two_files))
write_checked_lem_example =
    write_checked_lem two_files 420 refuses a_disk (codes "/a") (λ op. refl) two_apart

abbrev new_file : Map Text Text
new_file = (codes "/b", codes "new") ∷ []

refused_first :
    (write_checked new_file 420 refuses a_disk).0.failure ≡ some (check_failure (codes "bad"))
unfolding write_checked write_changed checked put_back keep_previous read_file content
    write_file_atomic insert lookup Text-discrete
refused_first = refl

b_absent : content (codes "/b") a_disk ≡ none
unfolding content lookup Text-discrete
b_absent = refl

was_absent : (q : Text) → contains (paths new_file) q ≡ true → content q a_disk ≡ none
unfolding content lookup
was_absent q m = elim (Text-discrete (codes "/b") q) [
  | yes e ↦ subst (λ p. content p a_disk ≡ none) e b_absent
  | no ne ↦ ground (arith, ne, m)
]

write_checked_retry_example :
    (write_checked new_file 420 refuses (write_checked new_file 420 refuses a_disk).1).0
    ≡ record { changed = false; failure = none }
write_checked_retry_example =
    write_checked_retry new_file 420 refuses refuses a_disk (check_failure (codes "bad"))
      (λ op. refl) (refl, tt) was_absent refused_first

alice_listed : get_clients a_store ≡ ok (alice ∷ [])
unfolding get_clients scan_rows scan_client with_hash
alice_listed = refl

abbrev constant_payload : Client → Text
constant_payload c = codes "links"

regenerate_all_subscriptions_lem_example :
    ((regenerate_all_subscriptions constant_payload (codes "/subs") a_store a_disk).0 ≡ ok tt)
    × (present
          (join_path (codes "/subs") (codes "0a"))
          (regenerate_all_subscriptions constant_payload (codes "/subs") a_store a_disk).1
        ≡ contains (sub_hashes (alice ∷ [])) (codes "0a"))
regenerate_all_subscriptions_lem_example =
    regenerate_all_subscriptions_lem constant_payload (codes "/subs") a_store a_disk (codes "0a")
      (λ op. refl) alice_listed refl
