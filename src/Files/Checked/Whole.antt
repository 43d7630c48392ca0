-- ===== src/Files/Checked/Whole.antt =====
-- internal/setup/setup.go: a writeChecked that returns no error, whatever the system has failed.
use uncut_core.Base.{
  Bool-cases, Option-cases, Distinct, Result, ok, err, Map, lookup, ℕ, ◌≡◌, refl, ap, ◌∙◌, inl, inr,
  Bool, true, false, Option, none, some, [], ◌∷◌, arith,
}
use uncut_core.Text.{Text, text_eq}
use uncut_core.Files.{DiskOp, read, Disk, write_file_atomic, content, read_file}
use uncut_core.Files.Laws.{content-write_file_atomic}
use uncut_core.Files.Checked.{
  CheckedError, Written, keep_previous, is_same, stop_or, write_changed, Check, after_check,
  checked, write_checked,
}
use uncut_core.Files.Checked.Laws.{paths, or_else, absent}

abbrev pub NoFailure : Option CheckedError → Type 0
NoFailure failure = failure ≡ none

read_file-content :
    (path text : Text) (d : Disk)
    → is_same (read_file path d) text ≡ true
    → content path d ≡ some text
unfolding read_file
read_file-content path text d h = elim (Bool-cases (d.broken (read path))) [
  | inl b ↦ ground (arith, rw b at h)
  | inr b ↦ elim (Option-cases (content path d)) [
    | inl e ↦ ground (arith, b, e, h)
    | inr (prev, e) ↦ ground (arith, b, e, h)
  ]
]

stop_or-whole :
    (q : Text) (r : Result DiskOp (Unit {0}) × Disk) (old : Map Text Text) (next : Disk → Written)
    {left : Option Text}
    → NoFailure (stop_or r old next).outcome.failure
    → (r.0 ≡ ok tt → NoFailure (next r.1).outcome.failure → content q (next r.1).disk ≡ left)
    → content q (stop_or r old next).disk ≡ left
stop_or-whole q (err e, d) old next h step = cc h
stop_or-whole q (ok _, d) old next h step = step refl h

-- The first loop, if it ends well, has written every file.
write_changed-whole :
    (files : Map Text Text) (mode : ℕ) (old : Map Text Text) (changed : Bool) (d : Disk) (q : Text)
    → Distinct (paths files)
    → NoFailure (write_changed files mode old changed d).outcome.failure
    → content q (write_changed files mode old changed d).disk
      ≡ or_else (lookup q files) (content q d)
unfolding write_changed lookup
write_changed-whole [] mode old changed d q u h = refl
write_changed-whole ((path, contents) ∷ files) mode old changed d q u h =
    let old' = keep_previous path (read_file path d) old in
    let d' = (write_file_atomic path contents mode d).1 in
    elim (Bool-cases (is_same (read_file path d) contents)) [
      | inl e ↦ rw e (
          ground (
            arith,
            u.0,
            write_changed-whole files mode old' changed d q u.1 (rw e at h),
            read_file-content path contents d e,
            absent q files,
          ))
      | inr e ↦ rw e (
          stop_or-whole q (write_file_atomic path contents mode d) old'
            (λ d'. write_changed files mode old' true d') (rw e at h)
            (λ w h'. ground (
              arith,
              u.0,
              write_changed-whole files mode old' true d' q u.1 h',
              content-write_file_atomic path contents q mode d w,
              absent q files,
            )))
    ]

after_check-whole :
    (w : Written) (mode : ℕ) (answer : Option Text)
    → NoFailure (after_check w mode answer).0.failure
    → (after_check w mode answer).1 ≡ w.disk
after_check-whole w mode none h = refl
after_check-whole w mode (some e) h = cc h

checked-whole :
    (w : Written) (mode : ℕ) (failure : Option CheckedError) (check : Check)
    → w.outcome.failure ≡ failure
    → NoFailure (checked w mode failure check).0.failure
    → (failure ≡ none) × ((checked w mode failure check).1 ≡ w.disk)
unfolding checked
checked-whole w mode (some e) check same h = cc (h, same)
checked-whole w mode none none same h = (refl, refl)
checked-whole w mode none (some check) same h = elim (Bool-cases w.outcome.changed) [
  | inl c ↦ (refl, rw c (after_check-whole w mode (check w.disk) (rw c at h)))
  | inr c ↦ (refl, rw c refl)
]

-- Every file holds the new contents, and every other path what it held.
pub write_checked-whole :
    (files : Map Text Text) (mode : ℕ) (check : Check) (d : Disk) (q : Text)
    → Distinct (paths files)
    → NoFailure (write_checked files mode check d).0.failure
    → content q (write_checked files mode check d).1 ≡ or_else (lookup q files) (content q d)
unfolding write_checked
write_checked-whole files mode check d q u h =
    let w = write_changed files mode [] false d in
    let (none_failed, same) = checked-whole w mode w.outcome.failure check refl h in
    ap (content q) same ∙ write_changed-whole files mode [] false d q u none_failed
