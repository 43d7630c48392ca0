-- ===== src/Files/Laws.antt =====
-- internal/config/atomic.go: a write is done or changes no file.
use uncut_core.Base.{
  if◌then◌else◌, ◌==◌, ok, err, is_ok, Result-cases, lookup, insert, lookup-insert, ℕ, ◌≡◌, refl,
  ap, ◌∙◌, ◌⊎◌, inl, inr, false, some, arith,
}
use uncut_core.Text.{Text, text_eq}
use uncut_core.Files.{
  DiskOp, create_temp, write_temp, chmod_temp, sync_temp, close_temp, remove_temp, rename_temp,
  Disk, abandoned, write_file_atomic, data_of, content,
}

-- A write replaces the whole file, with its mode, or leaves every file as it was; a temporary file
-- is left behind only by a write that failed and could not remove it either.
pub write_file_atomic_lem :
    (path contents : Text) (mode : ℕ) (d : Disk)
    → ((write_file_atomic path contents mode d ≡ (
      ok tt,
      record d { files = insert path (record { bytes = contents; perm = mode }) d.files },
    )))
      ⊎ ((is_ok (write_file_atomic path contents mode d).0 ≡ false)
          × ((write_file_atomic path contents mode d).1.files ≡ d.files)
          × ((write_file_atomic path contents mode d).1.broken ≡ d.broken)
          × (d.broken (remove_temp path) ≡ false
              → (write_file_atomic path contents mode d).1.temps ≡ d.temps))
unfolding write_file_atomic abandoned
write_file_atomic_lem path contents mode d = ground arith

-- Every operation of the system succeeds.
abbrev pub Works : Disk → Type 0
Works d = (op : DiskOp) → d.broken op ≡ false

pub write_file_atomic-Works :
    (path contents : Text) (mode : ℕ) (d : Disk)
    → Works d
    → write_file_atomic path contents mode d
      ≡ (ok tt, record d { files = insert path (record { bytes = contents; perm = mode }) d.files })
unfolding write_file_atomic
write_file_atomic-Works path contents mode d w = ground (
  arith,
  w (create_temp path),
  w (write_temp path),
  w (chmod_temp path),
  w (sync_temp path),
  w (close_temp path),
  w (rename_temp path),
)

-- What the paths hold after a write that ended well.
pub content-write_file_atomic :
    (path contents other : Text) (mode : ℕ) (d : Disk)
    → (write_file_atomic path contents mode d).0 ≡ ok tt
    → content other (write_file_atomic path contents mode d).1
      ≡ (if path == other then some contents else content other d)
unfolding content
content-write_file_atomic path contents other mode d done =
    elim (write_file_atomic_lem path contents mode d) [
      | inl whole ↦ rw whole (
          ground
            (arith, lookup-insert path other (record { bytes = contents; perm = mode }) d.files))
      | inr failed ↦ ground (arith, failed.0)
    ]

-- What they hold after one that failed.
pub content-write_file_atomic_err :
    (path contents other : Text) (mode : ℕ) (d : Disk) (op : DiskOp)
    → (write_file_atomic path contents mode d).0 ≡ err op
    → content other (write_file_atomic path contents mode d).1 ≡ content other d
unfolding content
content-write_file_atomic_err path contents other mode d op wrong =
    elim (write_file_atomic_lem path contents mode d) [
      | inl whole ↦ ground (arith, whole)
      | inr failed ↦ ap (λ fs. data_of (lookup other fs)) failed.1
    ]

-- A write, done or not, leaves every other path alone.
pub content-write_file_atomic_other :
    (path contents other : Text) (mode : ℕ) (d : Disk)
    → (path == other) ≡ false
    → content other (write_file_atomic path contents mode d).1 ≡ content other d
content-write_file_atomic_other path contents other mode d apart =
    elim (Result-cases (write_file_atomic path contents mode d).0) [
      | inl (u, e) ↦ content-write_file_atomic path contents other mode d e ∙ rw apart refl
      | inr (op, e) ↦ content-write_file_atomic_err path contents other mode d op e
    ]
