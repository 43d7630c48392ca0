-- ===== src/Core.antt =====
-- internal/core: the errors of its functions, and what one client creation draws.
pub mod Awg
pub mod Clients
pub mod Subscriptions
pub mod IpSync
use uncut_core.Base.{Result, ok, err, ℕ, Option}
use uncut_core.Text.{Text}
use uncut_core.Text.Encode.{Bytes}
use uncut_core.Store.{DbError}

pub data CoreError : Type 0 where
  invalid_client_name client_exists no_free_address key_failure : CoreError
  unknown_protocol : Text → CoreError
  db_failure : DbError → CoreError

-- An error of the store, wrapped.
unfoldable pub wrap {ℓ} : {A : Type ℓ} → Result DbError A → Result CoreError A
wrap (ok a) = ok a
wrap (err e) = err (db_failure e)

-- The store's write, with its error wrapped.
abbrev pub wrapped {ℓ κ} : {A : Type ℓ} {S : Type κ} → Result DbError A × S → Result CoreError A × S
wrapped r = (wrap r.0, r.1)

-- The random bytes that a key pair and a preshared key take; `none` where the source fails.
pub record KeyDraw : Type 0 where
  pub private_bytes : Option Bytes
  pub psk_bytes : Bytes

-- The random values of one `AddClient`, and its time.
pub record Draw : Type 0 where
  pub keys : KeyDraw
  pub uuid : Text
  pub password_bytes : Bytes
  pub sub_hash_bytes : Bytes
  pub now : ℕ
