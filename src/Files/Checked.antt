-- ===== src/Files/Checked.antt =====
-- internal/setup/setup.go: writeChecked. The runtime may range over the map of files in any order:
-- `files` is the list of its pairs in that order.
pub mod Laws
pub mod Retry
pub mod Others
pub mod Whole
use uncut_core.Base.{
  if◌then◌else◌, ◌==◌, Result, ok, err, Map, insert, ℕ, Bool, true, false, Option, none, some, [],
  ◌∷◌,
}
use uncut_core.Text.{Text, text_eq}
use uncut_core.Files.{DiskOp, Disk, write_file_atomic, read_file}

pub data CheckedError : Type 0 where
  write_failure : DiskOp → CheckedError
  check_failure : Text → CheckedError

-- The bool and the error that Go returns together.
pub record Outcome : Type 0 where
  pub changed : Bool
  pub failure : Option CheckedError

-- The state of the first loop: the previous contents, and the bool and the error so far.
pub record Written : Type 0 where
  pub old : Map Text Text
  pub outcome : Outcome
  pub disk : Disk

unfoldable pub keep_previous : Text → Option Text → Map Text Text → Map Text Text
unfolding insert
keep_previous path none old = old
keep_previous path (some prev) old = insert path prev old

abbrev pub is_same : Option Text → Text → Bool
is_same none contents = false
is_same (some prev) contents = prev == contents

abbrev pub stop_or : Result DiskOp (Unit {0}) × Disk → Map Text Text → (Disk → Written) → Written
stop_or (err e, d) old next = record {
  old = old;
  outcome = record { changed = true; failure = some (write_failure e) };
  disk = d;
}
stop_or (ok _, d) old next = next d

unfoldable pub write_changed : Map Text Text → ℕ → Map Text Text → Bool → Disk → Written
unfolding keep_previous write_file_atomic read_file
write_changed [] mode old changed d = record {
  old = old;
  outcome = record { changed = changed; failure = none };
  disk = d;
}
write_changed ((path, contents) ∷ files) mode old changed d =
    let old' = keep_previous path (read_file path d) old in
    let skipped = write_changed files mode old' changed d in
    let written =
      stop_or (write_file_atomic path contents mode d) old'
        (λ d'. write_changed files mode old' true d') in
    if is_same (read_file path d) contents then skipped else written

-- The second loop, which ignores its errors.
unfoldable pub put_back : Map Text Text → ℕ → Disk → Disk
unfolding write_file_atomic
put_back [] mode d = d
put_back ((path, prev) ∷ old) mode d = put_back old mode (write_file_atomic path prev mode d).1

-- `check` is the consumer's own check of the files on disk: an error, or none. It is absent where
-- the source passes nil.
abbrev pub Check : Type 0
Check = Option (Disk → Option Text)

abbrev pub after_check : Written → ℕ → Option Text → Outcome × Disk
after_check w mode none = (record { changed = true; failure = none }, w.disk)
after_check w mode (some e) =
    (record { changed = false; failure = some (check_failure e) }, put_back w.old mode w.disk)

unfoldable pub checked : Written → ℕ → Option CheckedError → Check → Outcome × Disk
unfolding put_back
checked w mode (some e) check = (w.outcome, w.disk)
checked w mode none none = (w.outcome, w.disk)
checked w mode none (some check) =
    if w.outcome.changed then after_check w mode (check w.disk) else (w.outcome, w.disk)

unfoldable pub write_checked : Map Text Text → ℕ → Check → Disk → Outcome × Disk
unfolding write_changed checked
write_checked files mode check d =
    let w = write_changed files mode [] false d in checked w mode w.outcome.failure check
