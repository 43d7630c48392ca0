-- ===== src/Nodeops.antt =====
-- internal/nodeops/nodeops.go: the node commands, on the store.
pub mod Clients
pub mod Names
pub mod Numbers
pub mod Reports
pub mod Daemon
pub mod Doctor
pub mod Certificates
use uncut_core.Base.{Result, ok, err, Exec, Map, Bool, Option, none, some}
use uncut_core.Text.{Text}
use uncut_core.Config.{Settings}
use uncut_core.Config.Ports.{PortError}
use uncut_core.Transport.{RandomPaths}
use uncut_core.Store.{DbError, Store, set_setting, set_settings}
use uncut_core.Core.{CoreError}
use uncut_core.Core.IpSync.{IpError}
use uncut_core.Setup.{SetupError, Options}
use uncut_core.Setup.Load.{TransportCodec, load}
use uncut_core.Files.{Disk}

pub data NodeError : Type 0 where
  name_required client_not_found protocol_required : NodeError
  bad_protocol : Text → NodeError
  domain_required sni_required : NodeError
  equals_node_domain equals_reality_sni equals_tls_domain : NodeError
  not_resolved not_reachable negative_bandwidth : NodeError
  bad_port : PortError → NodeError
  setup_failed : SetupError → NodeError
  core_failed : CoreError → NodeError
  db_failed : DbError → NodeError
  ip_failed : IpError → NodeError
  sni_not_valid : NodeError
  reload_failed : Text → NodeError

-- What the commands have from their surroundings: the options, the stored form of the transport,
-- the random values, the files at the time, the reload that the daemon is asked for (an error, or
-- none, from the files and the store that it finds), and the name lookup and the connection of the
-- check of a FakeTLS domain.
pub record Context : Type 0 where
  pub options : Options
  pub codec : TransportCodec
  pub paths : RandomPaths
  pub disk : Disk
  pub reload : Disk → Store → Option Text
  pub resolves : Text → Bool
  pub reachable : Text → Bool

abbrev pub from_setup {ℓ} : {A : Type ℓ} → Result SetupError A × Store → Result NodeError A × Store
from_setup (ok a, s) = (ok a, s)
from_setup (err e, s) = (err (setup_failed e), s)

abbrev pub from_core {ℓ} : {A : Type ℓ} → Result CoreError A × Store → Result NodeError A × Store
from_core (ok a, s) = (ok a, s)
from_core (err e, s) = (err (core_failed e), s)

abbrev pub from_db {ℓ} : {A : Type ℓ} → Result DbError A → Result NodeError A
from_db (ok a) = ok a
from_db (err e) = err (db_failed e)

-- `setup.Load`
unfoldable pub loaded_settings : Context → Exec Store NodeError Settings
unfolding load
loaded_settings k s = from_setup (load k.codec k.options k.paths s)

abbrev pub reload_result : Option Text → Result NodeError (Unit {0})
reload_result none = ok tt
reload_result (some e) = err (reload_failed e)

-- `setup.Reload`: what was stored stays stored when it fails.
unfoldable pub reloaded : Context → Exec Store NodeError (Unit {0})
reloaded k s = (reload_result (k.reload k.disk s), s)

unfoldable pub save : Text → Text → Exec Store NodeError (Unit {0})
save key value s = (from_db (set_setting key value s).0, (set_setting key value s).1)

unfoldable pub save_all : Map Text Text → Exec Store NodeError (Unit {0})
save_all kvs s = (from_db (set_settings kvs s).0, (set_settings kvs s).1)
