-- ===== src/Nodeops/Daemon.antt =====
-- internal/nodeops/daemon.go: the children of the daemon, its rebuild, and its health.
pub mod Laws
pub mod Rebuild
use uncut_core.Base.{if◌then◌else◌, contains, Map, Bool, true, not, ◌&&◌, List, [], ◌∷◌, ◌++◌}
use uncut_core.Text.{Text, codes, text_eq, is_blank}
use uncut_core.Text.Decimal.{print}
use uncut_core.Config.{Settings}
use uncut_core.Config.Ports.{ports}
use uncut_core.Config.Protocols.{vless_reality}
use uncut_core.Files.{join_path}
use uncut_core.Supervisor.{ProcessSpec, Supervisor, add_process}
use uncut_core.Supervisor.Control.{respec}
use uncut_core.Setup.{Options}

abbrev pub no_probe : Text → Text → List Text → Text → ProcessSpec
no_probe name command args log_path = record {
  name = name;
  command = command;
  args = args;
  dir = [];
  log_path = log_path;
  probe_addr = [];
  probe_sni = [];
}

unfoldable pub mtproto_spec : Settings → Text → ProcessSpec
unfolding ports print join_path
mtproto_spec s logs_dir =
    no_probe (codes "mtproto-proxy") (codes "mtproto-proxy")
      (codes "-u"
        ∷ codes "nobody"
        ∷ codes "-p"
        ∷ codes "8888"
        ∷ codes "-H"
        ∷ print ports.mtproto_bridge
        ∷ codes "-S"
        ∷ s.webproxy_secret
        ∷ codes "--aes-pwd"
        ∷ codes "/etc/mtproxy/proxy-secret"
        ∷ codes "-M"
        ∷ codes "1"
        ∷ codes "-C"
        ∷ codes "4096"
        ∷ ((if is_blank s.ip then [] else codes "--nat-info" ∷ (codes "127.0.0.1:" ++ s.ip) ∷ [])
            ++ (codes "/etc/mtproxy/proxy-multi.conf" ∷ [])))
      (join_path logs_dir (codes "mtproto-proxy.log"))

-- `binary` is what `updater.SingBoxBin` finds.
unfoldable pub singbox_spec : Text → Settings → Options → Text → ProcessSpec
unfolding ports print join_path vless_reality
singbox_spec binary s opts logs_dir =
    let plain =
      no_probe (codes "sing-box") binary
        (codes "run" ∷ codes "-c" ∷ join_path opts.install_dir (codes "config.json") ∷ [])
        (join_path logs_dir (codes "sing-box.log")) in
    if contains s.protocols vless_reality
    then record plain {
      probe_addr = codes "127.0.0.1:" ++ print ports.reality;
      probe_sni = s.reality_server_name;
    }
    else plain

-- The children, in the order in which they are registered.
unfoldable pub child_specs : Text → Settings → Options → Text → List ProcessSpec
unfolding singbox_spec mtproto_spec join_path
child_specs binary s opts logs_dir =
    singbox_spec binary s opts logs_dir
    ∷ no_probe (codes "nginx") (codes "nginx") (codes "-g" ∷ codes "daemon off;" ∷ []) []
    ∷ mtproto_spec s logs_dir
    ∷ no_probe (codes "tproxy-server") (codes "tproxy-server")
        (codes "-config" ∷ join_path opts.install_dir (codes "tproxy/config.json") ∷ [])
        (join_path logs_dir (codes "tproxy-server.log"))
    ∷ no_probe (codes "coredns") (codes "coredns")
        (codes "-conf" ∷ codes "/etc/coredns/Corefile" ∷ [])
        (join_path logs_dir (codes "coredns.log"))
    ∷ []

unfoldable pub add_all : List ProcessSpec → Supervisor → Supervisor
unfolding add_process
add_all [] sup = sup
add_all (spec ∷ specs) sup = add_all specs (add_process spec sup)

-- The child of that name is restarted too, if its specification has changed.
unfoldable pub with_changed : Bool → Text → List Text → List Text
with_changed changed name restart =
    if changed && not (contains restart name) then restart ++ name ∷ [] else restart

-- The first loop of the rebuild: each specification replaces the registered one.
unfoldable pub respec_all : List ProcessSpec → List Text → Supervisor → List Text × Supervisor
unfolding respec with_changed
respec_all [] restart sup = (restart, sup)
respec_all (spec ∷ specs) restart sup =
    respec_all specs (with_changed (respec spec sup).0 spec.name restart) (respec spec sup).1

-- `/healthz`: true where the answer is 200.
unfoldable pub all_healthy : Map Text Bool → Bool
all_healthy [] = true
all_healthy ((name, running) ∷ status) = running && all_healthy status
