-- ===== src/Setup/Rebuild/Laws.antt =====
-- internal/setup/setup.go: a pass of RebuildAll that stops early advertises nothing.
use uncut_core.Base.{
  ◌==◌, contains, Result, ok, err, Result-cases, ◌≡◌, refl, ap, inl, inr, Bool, true, false, Option,
  some, List,
}
use uncut_core.Text.{Text, codes, text_eq}
use uncut_core.Config.{Client, Settings}
use uncut_core.Transport.{RandomPaths}
use uncut_core.Store.{DbError, Store, get_clients}
use uncut_core.Files.{Disk, content, join_path}
use uncut_core.Files.Checked.{write_checked}
use uncut_core.Files.Checked.Others.{write_checked-other}
use uncut_core.Supervisor.{Supervisor}
use uncut_core.Core.Subscriptions.{generate_subscription_payload}
use uncut_core.Core.Subscriptions.Files.{regenerate_all_subscriptions}
use uncut_core.Setup.{SetupError, Options}
use uncut_core.Setup.Load.{TransportCodec, load}
use uncut_core.Setup.Rebuild.{
  Action, RebuildError, sing_box_config, subscriptions_failed, Node, Consumers, regenerated,
  sing_box_files, write_subscription_files, write_nginx, sing_box_checks, write_all, with_rows,
  with_settings, rebuild_all,
}
use uncut_core.Setup.Rebuild.Stages.{
  config_paths, not_contains-All, ApartTproxy, ApartNginx, Untouched, written-Untouched,
  write_nginx-Untouched,
}

-- Whether the pass got as far as the subscriptions.
abbrev pub at_subscriptions : Result RebuildError (List Action) → Bool
at_subscriptions (ok actions) = true
at_subscriptions (err (subscriptions_failed e)) = true
at_subscriptions (err e) = false

late : {b : Bool} → b ≡ true → b ≡ false → ⊥
late h g = cc (h, g)

abbrev Early : Text → Disk → Result RebuildError (List Action) × Disk → Type 0
Early q d r = Untouched at_subscriptions q d r

-- None of the seven is `q`.
record Apart (opts : Options) (q : Text) : Type 0 where
  sing_box : (join_path opts.install_dir (codes "config.json") == q) ≡ false
  nginx : ApartNginx q
  tproxy : ApartTproxy opts q

config_paths-Apart :
    (opts : Options) (q : Text) → contains (config_paths opts) q ≡ false → Apart opts q
config_paths-Apart opts q h =
    let a = not_contains-All q (config_paths opts) h in
    record {
      sing_box = a.0;
      nginx = record { server = a.1.0; stream = a.1.1.0; limits = a.1.1.1.0 };
      tproxy = record { profiles = a.1.1.1.1.0; config = a.1.1.1.1.1.0; index = a.1.1.1.1.1.1.0 };
    }

module _ (k : Consumers) (opts : Options) (sup : Option Supervisor) (settings : Settings)
    (s : Store) (q : Text) (apart : Apart opts q) where
  subscriptions-Untouched :
      (changed : Bool) (d : Disk)
      → Early q d (write_subscription_files k opts sup settings s changed d)
  unfolding write_subscription_files
  subscriptions-Untouched changed d h =
      elim (Result-cases
        (regenerate_all_subscriptions (λ c. generate_subscription_payload c settings) opts.subs_dir
          s d).0) [
            | inl (u, e) ↦
                absurd (late (ap (λ r. at_subscriptions (regenerated sup changed r)) e) h)
            | inr (x, e) ↦
                absurd (late (ap (λ r. at_subscriptions (regenerated sup changed r)) e) h)
          ]

  write_all-Untouched :
      (cs : List Client) (d : Disk) → Early q d (write_all k opts sup settings s cs d)
  unfolding write_all sing_box_files
  write_all-Untouched cs d =
      let files = sing_box_files k opts settings cs d in
      let check = some (sing_box_checks k opts sup settings s) in
      let r = write_checked files 384 check d in
      written-Untouched at_subscriptions q sing_box_config r.0.failure
        (write_nginx k opts sup settings s) d r.1
        (write_checked-other q files 384 check d (rw apart.sing_box refl))
        (write_nginx-Untouched k opts sup settings s at_subscriptions q subscriptions-Untouched
          apart.tproxy apart.nginx r.1)

module _ (k : Consumers) (opts : Options) (sup : Option Supervisor) (q : Text)
    (apart : Apart opts q) where
  with_rows-Untouched :
      (settings : Settings) (s : Store) (cs : Result DbError (List Client)) (d : Disk)
      → Early q d (with_rows k opts sup settings s cs d)
  with_rows-Untouched settings s (err e) d = λ h. refl
  with_rows-Untouched settings s (ok cs) d = write_all-Untouched k opts sup settings s q apart cs d

  with_settings-Untouched :
      (settings : Result SetupError Settings) (s : Store) (d : Disk)
      → Early q d (with_settings k opts sup settings s d)
  with_settings-Untouched (err e) s d = λ h. refl
  with_settings-Untouched (ok settings) s d = with_rows-Untouched settings s (get_clients s) d

-- A pass that ends before the subscriptions, because the settings, the clients, a render, a write or
-- a check failed, has changed no path but those of the configurations: the subscriptions, and any
-- other file, hold what they held.
pub rebuild_all-Untouched :
    (k : Consumers) (codec : TransportCodec) (opts : Options) (paths' : RandomPaths)
    (sup : Option Supervisor) (n : Node) (q : Text)
    → contains (config_paths opts) q ≡ false
    → at_subscriptions (rebuild_all k codec opts paths' sup n).0 ≡ false
    → content q (rebuild_all k codec opts paths' sup n).1.disk ≡ content q n.disk
unfolding rebuild_all
rebuild_all-Untouched k codec opts paths' sup n q apart early =
    with_settings-Untouched k opts sup q (config_paths-Apart opts q apart)
      (load codec opts paths' n.store).0 (load codec opts paths' n.store).1 n.disk early
