-- ===== src/Setup/Rebuild/InPlace.antt =====
-- internal/setup/setup.go: a pass of RebuildAll that ends well leaves its renders on disk.
use uncut_core.Base.{
  Bool-cases, ◌==◌, Distinct, Result, ok, err, ◌≡◌, refl, sym, ap, subst, ◌∙◌, inl, inr, Bool,
  false, Option, none, some, List, [], arith,
}
use uncut_core.Text.{Text, codes, text_eq}
use uncut_core.Config.{Client, Settings}
use uncut_core.Store.{Store}
use uncut_core.Files.{make_dir, Disk, content, join_path}
use uncut_core.Files.Checked.{write_checked}
use uncut_core.Files.Checked.Laws.{paths, or_else}
use uncut_core.Files.Checked.Whole.{write_checked-whole}
use uncut_core.Supervisor.{Supervisor}
use uncut_core.Core.Subscriptions.{generate_subscription_payload}
use uncut_core.Core.Subscriptions.Files.Outside.{IsOutside, regenerate-outside}
use uncut_core.Singbox.{generate_config}
use uncut_core.Nginx.{GeneratorOptions, NginxError, generate_stream_config}
use uncut_core.Nginx.Server
use uncut_core.Nginx.Server.{
  any_broken, server_file, stream_file, three_of, three_files, made_dirs, files,
}
use uncut_core.Tproxy
use uncut_core.Tproxy.{
  default_public_dir, profiles_json, config_json, TproxyError, ensure_site_index, profiles_file,
  config_file, rendered, rendered_after,
}
use uncut_core.Setup.{Options}
use uncut_core.Setup.Rebuild.{
  Action, RebuildError, sing_box_config, nginx_config, tproxy_config, Consumers, generator_options,
  exists_on, sing_box_files, write_subscription_files, put_tproxy, write_tproxy, put_nginx,
  write_nginx, sing_box_checks, write_all,
}
use uncut_core.Setup.Rebuild.Writes.{
  eq-flip, nginx_apart, stream_second, lookup-first, lookup-second, written-ok,
}
use uncut_core.Setup.Rebuild.Stages.{
  ApartTproxy, ApartNginx, write_tproxy-Untouched, write_nginx-Untouched,
}

abbrev none_count : Result RebuildError (List Action) → Bool
none_count r = false

module _ (k : Consumers) (opts : Options) (sup : Option Supervisor) (settings : Settings)
    (s : Store) where
  -- The subscriptions are written last, and elsewhere.
  subscriptions-outside :
      (q : Text)
      → IsOutside opts.subs_dir q
      → (changed : Bool) (d : Disk)
      → content q (write_subscription_files k opts sup settings s changed d).1 ≡ content q d
  unfolding write_subscription_files
  subscriptions-outside q o changed d =
      regenerate-outside opts.subs_dir q o (λ c. generate_subscription_payload c settings) s d

  abbrev profiles : Text
  profiles = profiles_file opts.install_dir

  abbrev config : Text
  config = config_file opts.install_dir

  -- The two files of the Telegram proxy.
  abbrev pub HasTproxy : Disk → Type 0
  HasTproxy d =
      (content profiles d ≡ some (k.marshal (profiles_json settings.webproxy_secret)))
      × (content config d
          ≡ some (k.marshal (config_json settings.domain default_public_dir profiles)))

  module _ (apart : (profiles == config) ≡ false) (o : IsOutside opts.subs_dir profiles)
      (o' : IsOutside opts.subs_dir config) where
    put_tproxy-InPlace :
        (r : Result TproxyError (Unit {0})) (d : Disk) {actions : List Action}
        → let put =
            put_tproxy k opts sup settings s
              (rendered_after k.marshal opts.install_dir settings.domain settings.webproxy_secret
                default_public_dir r)
              d in
          put.0 ≡ ok actions → HasTproxy put.1
    put_tproxy-InPlace (err e) d h = cc h
    put_tproxy-InPlace (ok _) d h =
        let files =
          rendered k.marshal opts.install_dir settings.domain settings.webproxy_secret
            default_public_dir in
        let r = write_checked files 384 none d in
        let (whole, same, done) =
          written-ok tproxy_config r.0.failure
            (write_subscription_files k opts sup settings s r.0.changed) r.1 h in
        let two : Distinct (paths files) =
          (ground (arith, eq-flip profiles config apart), (refl, tt)) in
        (
          ap (λ x. content profiles x.1) same
              ∙ (subscriptions-outside profiles o r.0.changed r.1
                  ∙ (write_checked-whole files 384 none d profiles two whole
                      ∙ ap (λ x. or_else x (content profiles d)) (lookup-first profiles _ _))),
          ap (λ x. content config x.1) same
              ∙ (subscriptions-outside config o' r.0.changed r.1
                  ∙ (write_checked-whole files 384 none d config two whole
                      ∙ ap (λ x. or_else x (content config d))
                          (lookup-second profiles config _ _ _ apart))),
        )

    write_tproxy-InPlace :
        (d : Disk) {actions : List Action}
        → (write_tproxy k opts sup settings s d).0 ≡ ok actions
        → HasTproxy (write_tproxy k opts sup settings s d).1
    unfolding write_tproxy Tproxy.files
    write_tproxy-InPlace d h =
        elim (Bool-cases (d.broken (make_dir (join_path opts.install_dir (codes "tproxy"))))) [
          | inl b ↦ absurd (err-not-ok (rw b at h))
          | inr b ↦ rw b (
              put_tproxy-InPlace (ensure_site_index default_public_dir d).0
                (ensure_site_index default_public_dir d).1 (rw b at h))
        ]
      where
        err-not-ok : {e : RebuildError} {actions : List Action} → err e ≡ ok actions → ⊥
        err-not-ok g = cc g

    -- The stream configuration of nginx, which later steps leave alone.
    module _ (o'' : IsOutside opts.subs_dir stream_file)
        (later : ApartTproxy opts stream_file) where
      abbrev pub HasNginx : Result NginxError Text → Disk → Type 0
      HasNginx stream d = (text : Text) × (stream ≡ ok text) × (content stream_file d ≡ some text)

      put_nginx-InPlace :
          (gen : GeneratorOptions) (stream : Result NginxError Text) (d : Disk)
          {actions : List Action}
          → let put = put_nginx k opts sup settings s (three_files gen d stream) d in
            put.0 ≡ ok actions → HasNginx stream put.1 × HasTproxy put.1
      put_nginx-InPlace gen (err e) d h = cc h
      put_nginx-InPlace gen (ok text) d h =
          let files = three_of gen d text in
          let r = write_checked files 420 (some k.nginx_check) d in
          let (whole, same, done) =
            written-ok nginx_config r.0.failure (write_tproxy k opts sup settings s) r.1 h in
          (
            (
              text,
              refl,
              ap (λ x. content stream_file x.1) same
                  ∙ (write_tproxy-Untouched k opts sup settings s none_count stream_file
                        (λ changed d' _. subscriptions-outside stream_file o'' changed d') later r.1
                        refl
                      ∙ (write_checked-whole files 420 (some k.nginx_check) d stream_file
                            nginx_apart whole
                          ∙ ap (λ x. or_else x (content stream_file d))
                              (lookup-second server_file stream_file _ _ _ stream_second))),
            ),
            subst (λ x. HasTproxy x.1) (sym same) (write_tproxy-InPlace r.1 done),
          )

      write_nginx-InPlace :
          (d : Disk) {actions : List Action}
          → (write_nginx k opts sup settings s d).0 ≡ ok actions
          → HasNginx
              (generate_stream_config (generator_options settings opts))
              (write_nginx k opts sup settings s d).1
            × HasTproxy (write_nginx k opts sup settings s d).1
      unfolding write_nginx Server.files
      write_nginx-InPlace d h =
          let gen = generator_options settings opts in
          elim (Bool-cases (any_broken (made_dirs gen) d)) [
            | inl b ↦ absurd (err-not-ok (rw b at h))
            | inr b ↦ rw b (put_nginx-InPlace gen (generate_stream_config gen) d (rw b at h))
          ]
        where
          err-not-ok : {e : RebuildError} {actions : List Action} → err e ≡ ok actions → ⊥
          err-not-ok g = cc g

      abbrev sing_box : Text
      sing_box = join_path opts.install_dir (codes "config.json")

      -- And the configuration of sing-box.
      abbrev pub HasSingBox : List Client → Disk → Disk → Type 0
      HasSingBox clients d d' =
          content sing_box d' ≡ some (k.marshal (generate_config (exists_on d) settings clients))

      pub write_all-InPlace :
          (clients : List Client) (d : Disk) {actions : List Action}
          → IsOutside opts.subs_dir sing_box
          → ApartTproxy opts sing_box
          → ApartNginx sing_box
          → (write_all k opts sup settings s clients d).0 ≡ ok actions
          → let d' = (write_all k opts sup settings s clients d).1 in
            HasSingBox clients d d'
            × HasNginx (generate_stream_config (generator_options settings opts)) d'
            × HasTproxy d'
      unfolding write_all sing_box_files
      write_all-InPlace clients d outside tproxy nginx h =
          let files = sing_box_files k opts settings clients d in
          let check = some (sing_box_checks k opts sup settings s) in
          let r = write_checked files 384 check d in
          let (whole, same, done) =
            written-ok sing_box_config r.0.failure (write_nginx k opts sup settings s) r.1 h in
          let later = write_nginx-InPlace r.1 done in
          (
            ap (λ x. content sing_box x.1) same
                ∙ (write_nginx-Untouched k opts sup settings s none_count sing_box
                      (λ changed d' _. subscriptions-outside sing_box outside changed d') tproxy
                      nginx r.1 refl
                    ∙ (write_checked-whole files 384 check d sing_box (refl, tt) whole
                        ∙ ap (λ x. or_else x (content sing_box d)) (lookup-first sing_box _ []))),
            subst (λ x. HasNginx (generate_stream_config (generator_options settings opts)) x.1)
                (sym same) later.0,
            subst (λ x. HasTproxy x.1) (sym same) later.1,
          )
