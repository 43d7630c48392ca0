-- ===== src/Setup.antt =====
-- internal/setup/setup.go: the settings of the node in its store.
pub mod Protocols
pub mod Load
pub mod Bootstrap
pub mod Rebuild
use uncut_core.Base.{if◌then◌else◌, Result, ok, err, Exec, ◌++◌}
use uncut_core.Text.{Text, codes, is_blank}
use uncut_core.Store.{DbError, Store, get_setting, set_setting}
use uncut_core.Core.{CoreError}
use uncut_core.Core.Awg.{or_blank}

pub data SetupError : Type 0 where
  not_configured not_saved : Text → SetupError
  setting_failure : DbError → SetupError
  core_failure : CoreError → SetupError
  transport_not_parsed transport_not_valid key_not_made : SetupError

pub record Options : Type 0 where
  pub data_dir : Text
  pub install_dir : Text
  pub web_root : Text
  pub subs_dir : Text
  pub log_dir : Text

-- For a clean data directory.
unfoldable pub default_options : Text → Text → Options
default_options data_dir install_dir = record {
  data_dir = data_dir;
  install_dir = install_dir;
  web_root = codes "/var/www/html";
  subs_dir = codes "/var/www/cdn/subs";
  log_dir = data_dir ++ codes "/logs/nginx";
}

-- `filepath.Join` of a clean directory and the two names.
unfoldable pub certs_dir : Options → Text
certs_dir opts = opts.install_dir ++ codes "/certs/certificates"

unfoldable pub get : Text → Store → Text
get key s = or_blank (get_setting key s)

abbrev pub stored {ℓ} :
    {A : Type ℓ} → A → Result DbError (Unit {0}) × Store → Result SetupError A × Store
stored a (ok _, s) = (ok a, s)
stored a (err e, s) = (err (setting_failure e), s)

unfoldable pub setting_from : Text → Text → Result DbError Text → Exec Store SetupError Text
setting_from key fallback (ok v) s = (ok v, s)
setting_from key fallback (err e) s =
    if is_blank fallback
    then (err (not_configured key), s)
    else stored fallback (set_setting key fallback s)

-- The stored value, or the fallback, which is stored.
unfoldable pub setting : Text → Text → Exec Store SetupError Text
unfolding setting_from
setting key fallback s = setting_from key fallback (get_setting key s) s

-- A step of internal/core, with its error.
abbrev pub core_step {ℓ} : {A : Type ℓ} → Result CoreError A × Store → Result SetupError A × Store
core_step (ok a, s) = (ok a, s)
core_step (err e, s) = (err (core_failure e), s)
