-- ===== src/Files/Moves.antt =====
-- Go's `os.Stat` and `os.Rename` on the files, which the updater and the site index use.
use uncut_core.Base.{
  if◌then◌else◌, Bool-cases, Option-cases, ok, err, Exec, lookup, insert, erase, ◌≡◌, ◌⊎◌, inl, inr,
  Bool, true, false, Option, none, some,
}
use uncut_core.Text.{Text, text_eq}
use uncut_core.Files.{DiskOp, stat, rename, File, Disk}

-- Whether `os.Stat` answers without an error.
unfoldable pub stats : Text → Disk → Bool
unfolding lookup
stats path d =
    if d.broken (stat path)
    then false
    else elim (lookup path d.files) [ none ↦ false | some f ↦ true ]

abbrev moved : Text → Text → Option File → Exec Disk DiskOp (Unit {0})
moved old new none d = (err (rename old new), d)
moved old new (some f) d = (ok tt, record d { files = insert new f (erase old d.files) })

-- `os.Rename` of a file that is there, over one of the new name; the two names differ.
unfoldable pub rename_file : Text → Text → Exec Disk DiskOp (Unit {0})
unfolding lookup insert erase
rename_file old new d =
    if d.broken (rename old new)
    then (err (rename old new), d)
    else moved old new (lookup old d.files) d

module _ (old new : Text) (d : Disk) where
  -- A rename moves the file, or changes nothing.
  pub rename_file_cases :
      ((rename_file old new d ≡ (err (rename old new), d)))
      ⊎ ((f : File) × (lookup old d.files ≡ some f)
          × (rename_file old new d
              ≡ (ok tt, record d { files = insert new f (erase old d.files) })))
  unfolding rename_file
  rename_file_cases = elim (Bool-cases (d.broken (rename old new))) [
    | inl b ↦ inl (rw b)
    | inr works ↦ elim (Option-cases (lookup old d.files)) [
      | inl gone ↦ inl (rw (works, gone))
      | inr (f, held) ↦ inr (f, held, rw (works, held))
    ]
  ]
