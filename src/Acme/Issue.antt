-- ===== src/Acme/Issue.antt =====
-- internal/acme/acme.go: issuance, which writes the certificate and then its key, and Maintain.
use uncut_core.Base.{
  ltb, if◌then◌else◌, Result, ok, err, Exec, lift, ◌>>=◌, ◌>>◌, ℕ, ◌*◌, Bool, true, false, Option,
  none, some, List, [], ◌∷◌,
}
use uncut_core.Text.{Text}
use uncut_core.Files.{DiskOp, make_dir, Disk, write_file_atomic}
use uncut_core.Acme.{
  Manager, Obtained, Lego, AcmeError, no_certs_dir, certificate_not_written, key_not_written,
  no_manager, cert_path, key_path, valid, account_key, obtained,
}

abbrev disk_error : (DiskOp → AcmeError) → Result DiskOp (Unit {0}) → Result AcmeError (Unit {0})
disk_error wrong (ok _) = ok tt
disk_error wrong (err op) = err (wrong op)

abbrev from_disk :
    (DiskOp → AcmeError) → Result DiskOp (Unit {0}) × Disk → Result AcmeError (Unit {0}) × Disk
from_disk wrong r = (disk_error wrong r.0, r.1)

abbrev certs_dir_made : Text → Exec Disk AcmeError (Unit {0})
certs_dir_made dir d = if d.broken (make_dir dir) then (err no_certs_dir, d) else (ok tt, d)

module _ (m : Manager) where
  unfoldable pub put_certificate : Obtained → Exec Disk AcmeError (Unit {0})
  put_certificate got d =
      from_disk certificate_not_written (write_file_atomic (cert_path m) got.certificate 420 d)

  unfoldable pub put_key : Obtained → Exec Disk AcmeError (Unit {0})
  put_key got d = from_disk key_not_written (write_file_atomic (key_path m) got.private_key 384 d)

module _ (lego : Lego) (m : Manager) where
  unfoldable pub issue : Exec Disk AcmeError (Unit {0})
  issue = do
    key ← account_key lego m
    got ← lift (obtained lego m key)
    certs_dir_made m.certs_dir
    put_certificate m got
    put_key m got

  abbrev renewed : Result AcmeError (Unit {0}) → Result AcmeError Bool
  renewed (ok _) = ok true
  renewed (err e) = err e

  -- Whether a certificate was issued.
  unfoldable pub ensure : ℕ → Exec Disk AcmeError Bool
  ensure now d = if valid lego m now d then (ok false, d) else (renewed (issue d).0, (issue d).1)

-- One round of Maintain: the manager that `current` gives, if it gives one, the moment, the answers
-- of the round, and what the rest of the node does to the files before the next round.
pub record Round : Type 0 where
  pub manager : Option Manager
  pub now : ℕ
  pub lego : Lego
  pub meanwhile : Disk → Disk

unfoldable pub round_result : Round → Exec Disk AcmeError Bool
round_result r d = elim r.manager [ none ↦ (err no_manager, d) | some m ↦ ensure r.lego m r.now d ]

-- In seconds.
abbrev pub check_interval : ℕ
check_interval = 3600

abbrev pub first_backoff : ℕ
first_backoff = 5

unfoldable pub doubled : ℕ → ℕ
doubled backoff = if ltb (backoff * 2) 600 then backoff * 2 else 600

-- What a round ended in, and the seconds until the next one. `onRenew` runs after `ok true`.
pub record Pass : Type 0 where
  pub outcome : Result AcmeError Bool
  pub wait : ℕ

abbrev wait_of : ℕ → Result AcmeError Bool → ℕ
wait_of backoff (ok renewed) = check_interval
wait_of backoff (err e) = backoff

abbrev next_backoff : ℕ → Result AcmeError Bool → ℕ
next_backoff backoff (ok renewed) = first_backoff
next_backoff backoff (err e) = doubled backoff

-- The rounds that run before the context is cancelled.
unfoldable pub maintain : List Round → ℕ → Disk → List Pass × Disk
maintain [] backoff d = ([], d)
maintain (r ∷ rs) backoff d =
    let (outcome, d') = round_result r d in
    let (passes, last) = maintain rs (next_backoff backoff outcome) (r.meanwhile d') in
    (record { outcome = outcome; wait = wait_of backoff outcome } ∷ passes, last)
