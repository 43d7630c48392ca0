-- ===== src/Acme.antt =====
-- internal/acme/acme.go: the certificate of the node, and the loop that keeps it valid.
--
-- A moment is a number of nanoseconds after some fixed one. The certificate and key formats and the
-- lego library are parameters.
pub mod Issue
pub mod Errors
pub mod Laws
pub mod Ensure
pub mod Waits
use uncut_core.Base.Chain.{◌>>=◌, ◌>>◌}
use uncut_core.Base.{
  ltb, leb, eqb, if◌then◌else◌, Result, ok, err, Exec, ℕ, ◌+◌, ◌-◌, ◌/◌, ◌^◌, Bool, true, false,
  Option, none, some, ◌++◌,
}
use uncut_core.Text.{Text, codes, is_blank}
use uncut_core.Text.Decimal.{ℤ, pos, negsuc}
use uncut_core.Files.{DiskOp, Disk, write_file_atomic, read_file, join_path}

pub record Manager : Type 0 where
  pub domain : Text
  pub email : Text
  pub certs_dir : Text
  pub web_root : Text

pub record Certificate : Type 0 where
  pub not_before : ℕ
  pub not_after : ℕ

pub record Obtained : Type 0 where
  pub certificate : Text
  pub private_key : Text

-- What is not in the repository: the readers of PEM, the generator and the writer of the account
-- key, and the calls of the lego client, each with its error.
pub record Lego : Type 0 where
  pub parse_certificate : Text → Option Certificate
  pub parse_key : Text → Option Text
  pub new_key : Option Text
  pub key_pem : Text → Option Text
  pub new_client : Text → Text → Option Text
  pub new_provider : Text → Option Text
  pub set_provider : Text → Option Text
  pub resolve_account : Text → Option Text
  pub register : Text → Text → Result Text Text
  pub obtain : Text → Text → Result Text Obtained

pub data AcmeError : Type 0 where
  no_account_key : AcmeError
  no_client no_provider no_registration not_obtained : Text → AcmeError
  no_certs_dir : AcmeError
  certificate_not_written key_not_written : DiskOp → AcmeError
  no_manager : AcmeError

unfoldable pub cert_path : Manager → Text
unfolding join_path
cert_path m = join_path m.certs_dir (m.domain ++ codes ".crt")

unfoldable pub key_path : Manager → Text
unfolding join_path
key_path m = join_path m.certs_dir (m.domain ++ codes ".key")

unfoldable pub account_key_path : Manager → Text
unfolding join_path
account_key_path m = join_path m.certs_dir (codes "acme_account.key")

abbrev max_duration : ℕ
max_duration = 2 ^ 63 - 1

abbrev cut_off : ℕ → ℕ → ℕ
cut_off n limit = if ltb limit n then limit else n

-- `a.Sub(b)`, a 64-bit number of nanoseconds that stops at its bounds.
unfoldable pub sub_time : ℕ → ℕ → ℤ
sub_time a b =
    if leb b a
    then pos (cut_off (a - b) max_duration)
    else negsuc (cut_off (b - a - 1) max_duration)

-- Go's division of a number by a positive one rounds towards zero.
unfoldable pub quotient : ℤ → ℕ → ℤ
quotient (pos n) k = pos (n / k)
quotient (negsuc n) k = if eqb ((n + 1) / k) 0 then pos 0 else negsuc ((n + 1) / k - 1)

unfoldable pub longer : ℤ → ℤ → Bool
longer (pos a) (pos b) = ltb b a
longer (pos a) (negsuc b) = true
longer (negsuc a) (pos b) = false
longer (negsuc a) (negsuc b) = ltb a b

-- A certificate is renewed in the last third of its lifetime.
unfoldable pub is_current : ℕ → Certificate → Bool
is_current now c =
    longer (sub_time c.not_after now) (quotient (sub_time c.not_after c.not_before) 3)

abbrev parsed {ℓ} : {A : Type ℓ} → (Text → Option A) → Option Text → Option A
parsed f none = none
parsed f (some text) = f text

abbrev refused : (Text → AcmeError) → Option Text → Result AcmeError (Unit {0})
refused wrong none = ok tt
refused wrong (some e) = err (wrong e)

abbrev answer {ℓ} : {A : Type ℓ} → (Text → AcmeError) → Result Text A → Result AcmeError A
answer wrong (ok a) = ok a
answer wrong (err e) = err (wrong e)

module _ (lego : Lego) (m : Manager) where
  unfoldable pub certificate : Disk → Option Certificate
  certificate d = parsed lego.parse_certificate (read_file (cert_path m) d)

  unfoldable pub valid : ℕ → Disk → Bool
  valid now d = elim (certificate d) [ none ↦ false | some c ↦ is_current now c ]

  -- The errors of the directory and of the write are ignored.
  abbrev kept_key : Text → Option Text → Exec Disk AcmeError Text
  kept_key key none d = (ok key, d)
  kept_key key (some pem) d = (ok key, (write_file_atomic (account_key_path m) pem 384 d).1)

  abbrev made_key : Option Text → Exec Disk AcmeError Text
  made_key none d = (err no_account_key, d)
  made_key (some key) d = kept_key key (lego.key_pem key) d

  abbrev key_from : Option Text → Exec Disk AcmeError Text
  key_from (some key) d = (ok key, d)
  key_from none d = made_key lego.new_key d

  -- The stored account key, or a new one, whose storing may fail.
  unfoldable pub account_key : Exec Disk AcmeError Text
  account_key d = key_from (parsed lego.parse_key (read_file (account_key_path m) d)) d

  unfoldable pub account_email : Text
  account_email = if is_blank m.email then codes "admin@" ++ m.domain else m.email

  abbrev or_registered : Text → Option Text → Result AcmeError Text
  or_registered key (some reg) = ok reg
  or_registered key none = answer no_registration (lego.register key account_email)

  -- The registration of the key, or a new one.
  unfoldable pub registration : Text → Result AcmeError Text
  registration key = or_registered key (lego.resolve_account key)

  unfoldable pub obtained : Text → Result AcmeError Obtained
  obtained key = do
    refused no_client (lego.new_client account_email key)
    refused no_provider (lego.new_provider m.web_root)
    refused no_provider (lego.set_provider m.web_root)
    reg ← registration key
    answer not_obtained (lego.obtain reg m.domain)
