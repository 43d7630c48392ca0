-- ===== src/Files/Checked/Retry.antt =====
-- internal/setup/setup.go: writeChecked as a whole, and a second call after a failed one.
use uncut_core.Base.{
  if◌then◌else◌, Bool-cases, Option-cases, ◌==◌, contains, Distinct, Map, lookup, ℕ, ◌≡◌, refl, inl,
  inr, Bool, true, false, Option, none, some, [], ◌∷◌, arith,
}
use uncut_core.Text.{Text, text_eq}
use uncut_core.Files.{Disk, content}
use uncut_core.Files.Laws.{Works}
use uncut_core.Files.Checked.{
  CheckedError, Outcome, Written, keep_previous, write_changed, Check, after_check, checked,
  write_checked,
}
use uncut_core.Files.Checked.Laws.{
  paths, or_else, put_back-Works, absent, content-put_back, IsWritten, read_file-Works,
  write_changed_lem,
}

abbrev pub succeeds : Option CheckedError → Bool
succeeds none = true
succeeds (some e) = false

-- The outcome and the disk, for what the first loop left.
abbrev IsSettled : Map Text Text → Disk → Text → Outcome × Disk → Type 0
IsSettled files d q r = content q r.1 ≡ (
    if succeeds r.0.failure
    then or_else (lookup q files) (content q d)
    else or_else (content q d) (lookup q files))

after_check-IsSettled :
    (files : Map Text Text) (d : Disk) (w : Written) (mode : ℕ) (answer : Option Text) (q : Text)
    → IsWritten files [] d w
    → IsSettled files d q (after_check w mode answer)
unfolding lookup
after_check-IsSettled files d w mode none q h = h.wrote q
after_check-IsSettled files d w mode (some e) q h = ground (
  arith,
  content-put_back w.old mode w.disk q h.works h.apart,
  h.kept q,
  h.wrote q,
  absent q files,
)

checked-IsSettled :
    (files : Map Text Text) (d : Disk) (w : Written) (mode : ℕ) (check : Check) (q : Text)
    → IsWritten files [] d w
    → IsSettled files d q (checked w mode none check)
unfolding checked
checked-IsSettled files d w mode none q h = rw h.succeeded (h.wrote q)
checked-IsSettled files d w mode (some run) q h = elim (Bool-cases w.outcome.changed) [
  | inl e ↦ rw e (after_check-IsSettled files d w mode (run w.disk) q h)
  | inr e ↦ rw e (rw h.succeeded (h.wrote q))
]

-- When no operation of the system fails and no path stands twice: a call that returns no error
-- leaves every new file in place, and one that fails leaves the previous version of each file that
-- had one, and the new version of those that had none; no other path changes.
pub write_checked_lem :
    (files : Map Text Text) (mode : ℕ) (check : Check) (d : Disk) (q : Text)
    → Works d
    → Distinct (paths files)
    → content q (write_checked files mode check d).1 ≡ (
        if succeeds (write_checked files mode check d).0.failure
        then or_else (lookup q files) (content q d)
        else or_else (content q d) (lookup q files))
unfolding write_checked
write_checked_lem files mode check d q works apart =
    let w = write_changed_lem files mode [] false d works apart tt in
    rw w.succeeded (checked-IsSettled files d (write_changed files mode [] false d) mode check q w)

-- A call that finds every file as it is to be writes nothing.
write_changed_same :
    (files : Map Text Text) (mode : ℕ) (old : Map Text Text) (d : Disk)
    → Works d
    → Distinct (paths files)
    → ((q : Text) → contains (paths files) q ≡ true → content q d ≡ lookup q files)
    → ((write_changed files mode old false d).outcome ≡ record { changed = false; failure = none })
      × ((write_changed files mode old false d).disk ≡ d)
unfolding write_changed lookup
write_changed_same [] mode old d works apart h = (refl, refl)
write_changed_same ((path, contents) ∷ files) mode old d works apart h =
    rw (read_file-Works path d works) (
      ground (
        arith,
        h path,
        write_changed_same files mode (keep_previous path (content path d) old) d works apart.1
            (λ q m. ground (arith, h q, apart.0)),
      ))

lookup-paths :
    (files : Map Text Text) (q : Text)
    → contains (paths files) q ≡ true
    → (v : Text) × (lookup q files ≡ some v)
unfolding lookup
lookup-paths [] q h = ground arith
lookup-paths ((k, v) ∷ files) q h = elim (Bool-cases (k == q)) [
  | inl e ↦ rw e (v, refl)
  | inr e ↦ rw e (lookup-paths files q (ground (arith, e, h)))
]

checked-Works :
    (w : Written) (mode : ℕ) (check : Check) → Works w.disk → Works (checked w mode none check).1
unfolding checked
checked-Works w mode none h = h
checked-Works w mode (some run) h = elim (Bool-cases w.outcome.changed) [
  | inl e ↦ rw e (elim (Option-cases (run w.disk)) [
    | inl n ↦ rw n h
    | inr (x, n) ↦ rw n (put_back-Works w.old mode w.disk h)
  ])
  | inr e ↦ rw e h
]

write_checked-Works :
    (files : Map Text Text) (mode : ℕ) (check : Check) (d : Disk)
    → Works d
    → Distinct (paths files)
    → Works (write_checked files mode check d).1
unfolding write_checked
write_checked-Works files mode check d works apart =
    let w = write_changed_lem files mode [] false d works apart tt in
    rw w.succeeded (checked-Works (write_changed files mode [] false d) mode check w.works)

same_outcome :
    (w : Written) (mode : ℕ) (check : Check)
    → w.outcome ≡ record { changed = false; failure = none }
    → (checked w mode none check).0 ≡ record { changed = false; failure = none }
unfolding checked
same_outcome w mode none h = h
same_outcome w mode (some run) h = ground (arith, h)

write_checked_same :
    (files : Map Text Text) (mode : ℕ) (check : Check) (d : Disk)
    → ((write_changed files mode [] false d).outcome ≡ record { changed = false; failure = none })
      × ((write_changed files mode [] false d).disk ≡ d)
    → (write_checked files mode check d).0 ≡ record { changed = false; failure = none }
unfolding write_checked checked
write_checked_same files mode check d h =
    rw h.0 (same_outcome (write_changed files mode [] false d) mode check h.0)

-- When no file had a previous version, no path stands twice and no operation of the system fails,
-- the call after one that failed, with the same files, returns no error and reports no change,
-- whatever its check says.
pub write_checked_retry :
    (files : Map Text Text) (mode : ℕ) (check again : Check) (d : Disk) (e : CheckedError)
    → Works d
    → Distinct (paths files)
    → ((q : Text) → contains (paths files) q ≡ true → content q d ≡ none)
    → (write_checked files mode check d).0.failure ≡ some e
    → (write_checked files mode again (write_checked files mode check d).1).0
      ≡ record { changed = false; failure = none }
unfolding checked
write_checked_retry files mode check again d e works apart new failed =
    let d1 = (write_checked files mode check d).1 in
    let works1 = write_checked-Works files mode check d works apart in
    let same =
      write_changed_same files mode [] d1 works1 apart (λ q m.
        ground (arith, write_checked_lem files mode check d q works apart, failed, new q)) in
    write_checked_same files mode again d1 same
