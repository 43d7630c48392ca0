-- ===== src/Setup/Rebuild.antt =====
-- internal/setup/setup.go: RebuildAll, the daemon's only writer of configurations.
pub mod Stages
pub mod Laws
pub mod Writes
pub mod InPlace
pub mod Renders
use uncut_core.Base.{
  if◌then◌else◌, Result, ok, err, Exec, Map, ℕ, Bool, Option, none, some, List, [], ◌∷◌,
}
use uncut_core.Text.{Text, codes}
use uncut_core.Json.{Json}
use uncut_core.Config.{Client, Settings}
use uncut_core.Transport.{RandomPaths}
use uncut_core.Store.{DbError, Store, get_clients}
use uncut_core.Singbox.{generate_config}
use uncut_core.Files.{Disk, join_path}
use uncut_core.Files.Checked.{CheckedError, write_checked}
use uncut_core.Updater.{sing_box_bin}
use uncut_core.Nginx.{GeneratorOptions}
use uncut_core.Nginx.Server
use uncut_core.Tproxy
use uncut_core.Tproxy.{default_public_dir, TproxyError, files}
use uncut_core.Supervisor.{Supervisor}
use uncut_core.Supervisor.Control.{SupervisorError, reload_sing_box}
use uncut_core.Core.Subscriptions.{generate_subscription_payload}
use uncut_core.Core.Subscriptions.Files.{RegenerateError, regenerate_all_subscriptions}
use uncut_core.Setup.{SetupError, Options}
use uncut_core.Setup.Load.{TransportCodec, load}
use uncut_core.Files.Moves.{stats}

-- What the daemon asks of its children at the end.
pub data Action : Type 0 where
  hang_up : ℕ → Action
  restart : Text → Action
  reload_nginx : Action

pub data RebuildError : Type 0 where
  not_loaded : SetupError → RebuildError
  clients_not_loaded : DbError → RebuildError
  sing_box_config nginx_config tproxy_config : CheckedError → RebuildError
  nginx_not_rendered : RebuildError
  tproxy_not_rendered : TproxyError → RebuildError
  subscriptions_failed : RegenerateError → RebuildError

pub record Node : Type 0 where
  pub store : Store
  pub disk : Disk

-- `json.MarshalIndent` and the two checks, which run the named binary of sing-box and nginx.
pub record Consumers : Type 0 where
  pub marshal : Json → Text
  pub sing_box_check : Text → Disk → Option Text
  pub nginx_check : Disk → Option Text

-- `generatorOptions`
unfoldable pub generator_options : Settings → Options → GeneratorOptions
generator_options s opts = record {
  domain = s.domain;
  install_dir = opts.install_dir;
  subs_dir = s.subs_dir;
  log_dir = s.log_dir;
  web_root = opts.web_root;
  active_protocols = s.protocols;
  transport = s.transport;
  reality_server_name = s.reality_server_name;
  mtproto_tls_domain = s.mtproto_tls_domain;
}

abbrev sing_box_name : Text
sing_box_name = codes "sing-box"

abbrev or_restart : Result SupervisorError ℕ → Action
or_restart (ok cmd) = hang_up cmd
or_restart (err e) = restart sing_box_name

-- No action without a supervisor, which is the daemon's first pass.
unfoldable pub reload_actions : Option Supervisor → Bool → List Action
unfolding reload_sing_box
reload_actions none tproxy_changed = []
reload_actions (some sup) tproxy_changed =
    or_restart (reload_sing_box sup)
    ∷ reload_nginx
    ∷ (if tproxy_changed then restart (codes "tproxy-server") ∷ [] else [])

abbrev pub exists_on : Disk → Text → Bool
exists_on d path = stats path d

-- A checked write that fails stops the pass with `wrong`.
abbrev pub written :
    (CheckedError → RebuildError)
    → Option CheckedError
    → (Disk → Result RebuildError (List Action) × Disk)
    → Disk
    → Result RebuildError (List Action) × Disk
written wrong (some e) next d = (err (wrong e), d)
written wrong none next d = next d

abbrev pub regenerated :
    Option Supervisor → Bool → Result RegenerateError (Unit {0}) → Result RebuildError (List Action)
regenerated sup changed (err e) = err (subscriptions_failed e)
regenerated sup changed (ok _) = ok (reload_actions sup changed)

module _ (k : Consumers) where
  -- The certificate files are looked up while the configuration is generated.
  unfoldable pub sing_box_files : Options → Settings → List Client → Disk → Map Text Text
  sing_box_files opts settings clients d =
      (
        join_path opts.install_dir (codes "config.json"),
        k.marshal (generate_config (exists_on d) settings clients),
      )
      ∷ []

  module _ (opts : Options) (sup : Option Supervisor) (settings : Settings) (s : Store) where
    unfoldable pub write_subscription_files : Bool → Exec Disk RebuildError (List Action)
    write_subscription_files changed d =
        let r =
          regenerate_all_subscriptions (λ c. generate_subscription_payload c settings) opts.subs_dir
            s d in
        (regenerated sup changed r.0, r.1)

    abbrev pub put_tproxy :
        Result TproxyError (Map Text Text) → Exec Disk RebuildError (List Action)
    put_tproxy (err e) d = (err (tproxy_not_rendered e), d)
    put_tproxy (ok files) d =
        let r = write_checked files 384 none d in
        written tproxy_config r.0.failure (write_subscription_files r.0.changed) r.1

    unfoldable pub write_tproxy : Exec Disk RebuildError (List Action)
    write_tproxy d =
        let r =
          Tproxy.files k.marshal opts.install_dir settings.domain settings.webproxy_secret
            default_public_dir d in
        put_tproxy r.0 r.1

    abbrev pub put_nginx : Option (Map Text Text) → Exec Disk RebuildError (List Action)
    put_nginx none d = (err nginx_not_rendered, d)
    put_nginx (some files) d =
        let r = write_checked files 420 (some k.nginx_check) d in
        written nginx_config r.0.failure write_tproxy r.1

    unfoldable pub write_nginx : Exec Disk RebuildError (List Action)
    write_nginx d = put_nginx (Server.files (generator_options settings opts) d) d

    abbrev pub sing_box_checks : Disk → Option Text
    sing_box_checks d = k.sing_box_check (sing_box_bin opts.install_dir d) d

    unfoldable pub write_all : List Client → Exec Disk RebuildError (List Action)
    write_all clients d =
        let r =
          write_checked (sing_box_files opts settings clients d) 384 (some sing_box_checks) d in
        written sing_box_config r.0.failure write_nginx r.1

  abbrev pub with_rows :
      Options
      → Option Supervisor
      → Settings
      → Store
      → Result DbError (List Client)
      → Exec Disk RebuildError (List Action)
  with_rows opts sup settings s (err e) d = (err (clients_not_loaded e), d)
  with_rows opts sup settings s (ok clients) d = write_all opts sup settings s clients d

  abbrev pub with_settings :
      Options
      → Option Supervisor
      → Result SetupError Settings
      → Store
      → Exec Disk RebuildError (List Action)
  with_settings opts sup (err e) s d = (err (not_loaded e), d)
  with_settings opts sup (ok settings) s d = with_rows opts sup settings s (get_clients s) d

  -- The actions are those that follow a pass that ended well.
  unfoldable pub rebuild_all :
      TransportCodec
      → Options
      → RandomPaths
      → Option Supervisor
      → Exec Node RebuildError (List Action)
  rebuild_all codec opts paths sup n =
      let l = load codec opts paths n.store in
      let r = with_settings opts sup l.0 l.1 n.disk in (r.0, record { store = l.1; disk = r.1 })
