-- ===== src/Files/Checked/Others.antt =====
-- internal/setup/setup.go: writeChecked changes no path but those of its files, whatever fails.
use uncut_core.Base.{
  Bool-cases, ◌==◌, contains, Result, ok, err, Map, insert, ℕ, ◌≡◌, refl, ◌∙◌, inl, inr, Bool, true,
  false, Option, none, some, [], ◌∷◌, arith,
}
use uncut_core.Text.{Text, text_eq}
use uncut_core.Files.{DiskOp, Disk, write_file_atomic, content, read_file}
use uncut_core.Files.Laws.{content-write_file_atomic_other}
use uncut_core.Files.Checked.{
  CheckedError, Written, keep_previous, is_same, stop_or, write_changed, put_back, Check,
  after_check, checked, write_checked,
}
use uncut_core.Files.Checked.Laws.{paths}

module _ (q : Text) where
  abbrev Lacks : Map Text Text → Type 0
  Lacks m = contains (paths m) q ≡ false

  insert-Lacks :
      (key value : Text) (m : Map Text Text)
      → (key == q) ≡ false
      → Lacks m
      → Lacks (insert key value m)
  unfolding insert
  insert-Lacks key value [] apart h = rw apart refl
  insert-Lacks key value ((k, v) ∷ m) apart h =
      ground (arith, insert-Lacks key value m apart, h, apart)

  keep_previous-Lacks :
      (key : Text) (o : Option Text) (old : Map Text Text)
      → (key == q) ≡ false
      → Lacks old
      → Lacks (keep_previous key o old)
  unfolding keep_previous
  keep_previous-Lacks key none old apart h = h
  keep_previous-Lacks key (some prev) old apart h = insert-Lacks key prev old apart h

  put_back-other :
      (old : Map Text Text) (mode : ℕ) (d : Disk)
      → Lacks old
      → content q (put_back old mode d) ≡ content q d
  unfolding put_back
  put_back-other [] mode d h = refl
  put_back-other ((path, prev) ∷ old) mode d h =
      put_back-other old mode (write_file_atomic path prev mode d).1 (ground (arith, h))
      ∙ content-write_file_atomic_other path prev q mode d (ground (arith, h))

  -- What holds of the first loop.
  abbrev LeavesAlone : Disk → Written → Type 0
  LeavesAlone d w = (content q w.disk ≡ content q d) × Lacks w.old

  stop_or-LeavesAlone :
      (r : Result DiskOp (Unit {0}) × Disk) (old : Map Text Text) (next : Disk → Written) (d : Disk)
      → content q r.1 ≡ content q d
      → Lacks old
      → LeavesAlone r.1 (next r.1)
      → LeavesAlone d (stop_or r old next)
  stop_or-LeavesAlone (err e, d') old next d same h step = (same, h)
  stop_or-LeavesAlone (ok _, d') old next d same h step = (step.0 ∙ same, step.1)

  write_changed-LeavesAlone :
      (files : Map Text Text) (mode : ℕ) (old : Map Text Text) (changed : Bool) (d : Disk)
      → Lacks files
      → Lacks old
      → LeavesAlone d (write_changed files mode old changed d)
  unfolding write_changed
  write_changed-LeavesAlone [] mode old changed d f h = (refl, h)
  write_changed-LeavesAlone ((path, contents) ∷ files) mode old changed d f h =
      let apart : (path == q) ≡ false = ground (arith, f) in
      let rest : Lacks files = ground (arith, f) in
      let old' = keep_previous path (read_file path d) old in
      let kept = keep_previous-Lacks path (read_file path d) old apart h in
      elim (Bool-cases (is_same (read_file path d) contents)) [
        | inl e ↦ rw e (write_changed-LeavesAlone files mode old' changed d rest kept)
        | inr e ↦ rw e (
            stop_or-LeavesAlone (write_file_atomic path contents mode d) old'
              (λ d'. write_changed files mode old' true d') d
              (content-write_file_atomic_other path contents q mode d apart) kept
              (write_changed-LeavesAlone files mode old' true
                (write_file_atomic path contents mode d).1 rest kept))
      ]

  after_check-other :
      (w : Written) (mode : ℕ) (answer : Option Text)
      → Lacks w.old
      → content q (after_check w mode answer).1 ≡ content q w.disk
  after_check-other w mode none h = refl
  after_check-other w mode (some e) h = put_back-other w.old mode w.disk h

  checked-other :
      (w : Written) (mode : ℕ) (failure : Option CheckedError) (check : Check)
      → Lacks w.old
      → content q (checked w mode failure check).1 ≡ content q w.disk
  unfolding checked
  checked-other w mode (some e) check h = refl
  checked-other w mode none none h = refl
  checked-other w mode none (some check) h = elim (Bool-cases w.outcome.changed) [
    | inl c ↦ rw c (after_check-other w mode (check w.disk) h)
    | inr c ↦ rw c refl
  ]

  pub write_checked-other :
      (files : Map Text Text) (mode : ℕ) (check : Check) (d : Disk)
      → contains (paths files) q ≡ false
      → content q (write_checked files mode check d).1 ≡ content q d
  unfolding write_checked
  write_checked-other files mode check d h =
      let w = write_changed-LeavesAlone files mode [] false d h refl in
      let v = write_changed files mode [] false d in
      checked-other v mode v.outcome.failure check w.1 ∙ w.0
