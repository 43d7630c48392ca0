-- ===== src/Setup/Rebuild/Renders.antt =====
-- internal/setup/setup.go: what is on disk after a pass of RebuildAll that returns no error.
use uncut_core.Base.{All, Distinct, Result, ok, err, ◌≡◌, refl, Option, some, List, [], ◌∷◌}
use uncut_core.Text.{Text, codes, text_eq}
use uncut_core.Config.{Client, Settings}
use uncut_core.Transport.{RandomPaths}
use uncut_core.Store.{DbError, Store, get_clients}
use uncut_core.Files.{content, join_path}
use uncut_core.Supervisor.{Supervisor}
use uncut_core.Core.Subscriptions.Files.Outside.{IsOutside}
use uncut_core.Singbox.{generate_config}
use uncut_core.Nginx.{generate_stream_config}
use uncut_core.Nginx.Server.{server_file, stream_file, limits_file}
use uncut_core.Tproxy.{default_public_dir, profiles_json, config_json, profiles_file, config_file}
use uncut_core.Setup.{SetupError, Options}
use uncut_core.Setup.Load.{TransportCodec, load}
use uncut_core.Setup.Rebuild.{
  Action, Node, Consumers, generator_options, exists_on, with_rows, with_settings, rebuild_all,
}
use uncut_core.Setup.Rebuild.Writes.{eq-flip}
use uncut_core.Setup.Rebuild.Stages.{config_paths, not_contains-All}
use uncut_core.Setup.Rebuild.InPlace.{write_all-InPlace}

module _ (k : Consumers) (codec : TransportCodec) (opts : Options) (paths' : RandomPaths) where
  -- The files of the second node are the renders of the settings and the clients of the first.
  pub record IsRendered (n n' : Node) : Type 0 where
    pub settings : Settings
    pub clients : List Client
    pub stream : Text
    pub loads : (load codec opts paths' n.store).0 ≡ ok settings
    pub lists : get_clients n'.store ≡ ok clients
    pub splits : generate_stream_config (generator_options settings opts) ≡ ok stream
    pub sing_box :
        content (join_path opts.install_dir (codes "config.json")) n'.disk
        ≡ some (k.marshal (generate_config (exists_on n.disk) settings clients))
    pub nginx : content stream_file n'.disk ≡ some stream
    pub profiles :
        content (profiles_file opts.install_dir) n'.disk
        ≡ some (k.marshal (profiles_json settings.webproxy_secret))
    pub config :
        content (config_file opts.install_dir) n'.disk
        ≡ some (
            k.marshal
              (config_json settings.domain default_public_dir (profiles_file opts.install_dir)))

  -- None of the files is in the directory of the subscriptions.
  abbrev pub AllOutside : Type 0
  AllOutside = All (λ (q : Text). IsOutside opts.subs_dir q) (config_paths opts)

  module _ (sup : Option Supervisor) (n : Node) (u : Distinct (config_paths opts))
      (o : AllOutside) where
    abbrev proxy_paths : List Text
    proxy_paths =
        config_file opts.install_dir ∷ join_path default_public_dir (codes "index.html") ∷ []

    abbrev late_paths : List Text
    late_paths = limits_file ∷ profiles_file opts.install_dir ∷ proxy_paths

    abbrev loaded_node : Result SetupError Settings × Store
    loaded_node = load codec opts paths' n.store

    with_rows-IsRendered :
        (settings : Settings) (rows : Result DbError (List Client)) {actions : List Action}
        → loaded_node.0 ≡ ok settings
        → get_clients loaded_node.1 ≡ rows
        → let r = with_rows k opts sup settings loaded_node.1 rows n.disk in
          r.0 ≡ ok actions → IsRendered n (record { store = loaded_node.1; disk = r.1 })
    with_rows-IsRendered settings (err e) l g h = cc h
    with_rows-IsRendered settings (ok clients) l g h =
        let first =
          not_contains-All (join_path opts.install_dir (codes "config.json"))
            (server_file ∷ stream_file ∷ late_paths) u.0 in
        let third = not_contains-All stream_file late_paths u.1.1.0 in
        let fifth = not_contains-All (profiles_file opts.install_dir) proxy_paths u.1.1.1.1.0 in
        let (held, (text, split, streamed), (profiles_held, config_held)) =
          write_all-InPlace k opts sup settings loaded_node.1 (eq-flip _ _ fifth.0) o.1.1.1.1.0
            o.1.1.1.1.1.0 o.1.1.0
            (record { profiles = third.1.0; config = third.1.1.0; index = third.1.1.1.0 }) clients
            n.disk o.0
            (record {
              profiles = first.1.1.1.0;
              config = first.1.1.1.1.0;
              index = first.1.1.1.1.1.0;
            })
            (record { server = first.0; stream = first.1.0; limits = first.1.1.0 }) h in
        record {
          settings = settings;
          clients = clients;
          stream = text;
          loads = l;
          lists = g;
          splits = split;
          sing_box = held;
          nginx = streamed;
          profiles = profiles_held;
          config = config_held;
        }

    with_settings-IsRendered :
        (settings : Result SetupError Settings) {actions : List Action}
        → loaded_node.0 ≡ settings
        → let r = with_settings k opts sup settings loaded_node.1 n.disk in
          r.0 ≡ ok actions → IsRendered n (record { store = loaded_node.1; disk = r.1 })
    with_settings-IsRendered (err e) l h = cc h
    with_settings-IsRendered (ok settings) l h =
        with_rows-IsRendered settings (get_clients loaded_node.1) l refl h

-- Where the files of the configurations are apart and outside the directory of the subscriptions: a
-- pass that returns no error leaves on disk, whatever was there before and whichever operations
-- failed in between, the configuration of sing-box, the stream configuration of nginx and the two
-- files of the Telegram proxy as they are rendered from the settings and the clients of the store.
pub rebuild_all-IsRendered :
    (k : Consumers) (codec : TransportCodec) (opts : Options) (paths' : RandomPaths)
    (sup : Option Supervisor) (n : Node) {actions : List Action}
    → Distinct (config_paths opts)
    → AllOutside k codec opts paths'
    → (rebuild_all k codec opts paths' sup n).0 ≡ ok actions
    → IsRendered k codec opts paths' n (rebuild_all k codec opts paths' sup n).1
unfolding rebuild_all
rebuild_all-IsRendered k codec opts paths' sup n u o h =
    with_settings-IsRendered k codec opts paths' sup n u o (load codec opts paths' n.store).0 refl h
