-- ===== src/Nodeops/Daemon/Rebuild.antt =====
-- internal/nodeops/daemon.go: the start of the daemon, its rebuild, and the request for one.
pub mod Laws
use uncut_core.Base.{
  if◌then◌else◌, Result, ok, err, Exec, ℕ, Bool, Option, none, some, List, [], ◌∷◌,
}
use uncut_core.Text.{Text, codes, is_blank}
use uncut_core.Text.Encode.{Bytes}
use uncut_core.Text.Split.{split}
use uncut_core.Config.{Settings, AppConfig}
use uncut_core.Transport.{RandomPaths}
use uncut_core.Store.{Store}
use uncut_core.Files.{Disk, join_path}
use uncut_core.Updater.{sing_box_bin}
use uncut_core.Supervisor.{ProcessSpec, Supervisor, new_supervisor, start_all}
use uncut_core.Setup.{SetupError, Options}
use uncut_core.Setup.Load.{TransportCodec, load}
use uncut_core.Setup.Bootstrap.{Start, bootstrap}
use uncut_core.Setup.Rebuild.{Action, RebuildError, Node, Consumers, rebuild_all}
use uncut_core.Nodeops.Daemon.{mtproto_spec, singbox_spec, child_specs, add_all, respec_all}
use uncut_core.Supervisor.Control.{SupervisorError, Waiting, restart_process}

-- The store, the files, and the supervisor of the running daemon.
pub record Machine : Type 0 where
  pub node : Node
  pub sup : Supervisor

pub data DaemonError : Type 0 where
  not_rebuilt : RebuildError → DaemonError
  not_reloaded : SetupError → DaemonError
  not_restarted : SupervisorError → DaemonError

unfoldable pub logs_dir : Options → Text
logs_dir opts = join_path opts.data_dir (codes "logs")

-- The two specifications that depend on the settings.
unfoldable pub live_specs : Options → Disk → Settings → List ProcessSpec
live_specs opts d s =
    singbox_spec (sing_box_bin opts.install_dir d) s opts (logs_dir opts)
    ∷ mtproto_spec s (logs_dir opts)
    ∷ []

abbrev pub unless_failed :
    Result SupervisorError (Unit {0}) × Supervisor
    → Result SupervisorError (Unit {0}) × Supervisor
    → Result SupervisorError (Unit {0}) × Supervisor
unless_failed (err e, sup) rest = (err e, sup)
unless_failed (ok u, sup) rest = rest

-- The second loop of the rebuild, up to the first child that does not restart.
unfoldable pub restart_all : Waiting → List Text → Exec Supervisor SupervisorError (Unit {0})
restart_all w [] sup = (ok tt, sup)
restart_all w (name ∷ names) sup =
    let r = restart_process w name sup in let rest = restart_all w names r.1 in unless_failed r rest

abbrev pub rebuilt :
    List Action
    → Node
    → Result SupervisorError (Unit {0}) × Supervisor
    → Result DaemonError (List Action) × Machine
rebuilt actions n (err e, sup) = (err (not_restarted e), record { node = n; sup = sup })
rebuilt actions n (ok u, sup) = (ok actions, record { node = n; sup = sup })

module _ (k : Consumers) (codec : TransportCodec) (opts : Options) (w : Waiting) where
  abbrev pub respecified :
      List Text
      → List Action
      → Supervisor
      → Disk
      → Result SetupError Settings × Store
      → Result DaemonError (List Action) × Machine
  respecified asked actions sup d (err e, s) =
      (err (not_reloaded e), record { node = record { store = s; disk = d }; sup = sup })
  respecified asked actions sup d (ok settings, s) =
      let r = respec_all (live_specs opts d settings) asked sup in
      rebuilt actions (record { store = s; disk = d }) (restart_all w r.0 r.1)

  abbrev pub after_rebuild :
      RandomPaths
      → List Text
      → Supervisor
      → Result RebuildError (List Action) × Node
      → Result DaemonError (List Action) × Machine
  after_rebuild paths asked sup (err e, n) = (err (not_rebuilt e), record { node = n; sup = sup })
  after_rebuild paths asked sup (ok actions, n) =
      respecified asked actions sup n.disk (load codec opts paths n.store)

  -- The settings are loaded a second time, after the pass. What the pass asks of the children is
  -- the result of a rebuild that ends well.
  unfoldable pub rebuild :
      RandomPaths → RandomPaths → List Text → Exec Machine DaemonError (List Action)
  rebuild paths paths' asked m =
      after_rebuild paths' asked m.sup (rebuild_all k codec opts paths (some m.sup) m.node)

  -- `POST /reload`, with the value of `restart`.
  unfoldable pub restart_names : Text → List Text
  restart_names v = if is_blank v then [] else split b',' v

  unfoldable pub reload_request :
      RandomPaths → RandomPaths → Text → Exec Machine DaemonError (List Action)
  reload_request paths paths' v = rebuild paths paths' (restart_names v)

module _ (k : Consumers) (codec : TransportCodec) (opts : Options) where
  -- The first pass renders only, and its error stops nothing.
  abbrev pub begun :
      (Text → Bool)
      → ℕ
      → RandomPaths
      → Disk
      → Result SetupError Settings × Store
      → Result SetupError Supervisor × Node
  begun starts now paths d (err e, s) = (err e, record { store = s; disk = d })
  begun starts now paths d (ok settings, s) = (
    ok (
        start_all starts (
          add_all (child_specs (sing_box_bin opts.install_dir d) settings opts (logs_dir opts))
            (new_supervisor now))),
    (rebuild_all k codec opts paths none (record { store = s; disk = d })).1,
  )

  unfoldable pub start_daemon :
      (Bytes → Option Bytes)
      → AppConfig
      → Start
      → (Text → Bool)
      → ℕ
      → RandomPaths
      → Exec Node SetupError Supervisor
  start_daemon x25519 cfg d starts now paths n =
      begun starts now paths n.disk (bootstrap x25519 codec cfg opts d n.store)
