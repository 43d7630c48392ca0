-- ===== src/Setup/Rebuild/Stages.antt =====
-- internal/setup/setup.go: what each step of RebuildAll leaves alone.
use uncut_core.Base.{
  Bool-cases, All, ◌==◌, contains, Result, ok, err, ◌≡◌, refl, ◌∙◌, inl, inr, Bool, false, Option,
  none, some, List, [], ◌∷◌, arith,
}
use uncut_core.Text.{Text, codes, text_eq}
use uncut_core.Config.{Settings}
use uncut_core.Store.{Store}
use uncut_core.Files.{make_dir, Disk, content, join_path}
use uncut_core.Files.Moves.{stats}
use uncut_core.Files.Laws.{content-write_file_atomic_other}
use uncut_core.Files.Checked.{CheckedError, write_checked}
use uncut_core.Files.Checked.Others.{write_checked-other}
use uncut_core.Supervisor.{Supervisor}
use uncut_core.Nginx.{GeneratorOptions, NginxError, generate_stream_config}
use uncut_core.Nginx.Server
use uncut_core.Nginx.Server.{
  any_broken, server_file, stream_file, limits_file, three_of, three_files, made_dirs, files,
}
use uncut_core.Tproxy
use uncut_core.Tproxy.{
  default_public_dir, TproxyError, ensure_site_index, profiles_file, config_file, rendered,
  rendered_after,
}
use uncut_core.Setup.{Options}
use uncut_core.Setup.Rebuild.{
  Action, RebuildError, nginx_config, tproxy_config, Consumers, generator_options, written,
  write_subscription_files, put_tproxy, write_tproxy, put_nginx, write_nginx,
}

-- The files that a pass may write, but for the subscriptions.
abbrev pub config_paths : Options → List Text
config_paths opts =
    join_path opts.install_dir (codes "config.json")
    ∷ server_file
    ∷ stream_file
    ∷ limits_file
    ∷ profiles_file opts.install_dir
    ∷ config_file opts.install_dir
    ∷ join_path default_public_dir (codes "index.html")
    ∷ []

pub not_contains-All :
    (q : Text) (xs : List Text) → contains xs q ≡ false → All (λ (x : Text). (x == q) ≡ false) xs
not_contains-All q [] h = tt
not_contains-All q (x ∷ xs) h = (ground (arith, h), not_contains-All q xs (ground (arith, h)))

contains-pair :
    (x y q : Text) → (x == q) ≡ false → (y == q) ≡ false → contains (x ∷ y ∷ []) q ≡ false
contains-pair x y q h g = rw (h, g) refl

contains-triple :
    (x y z q : Text)
    → (x == q) ≡ false
    → (y == q) ≡ false
    → (z == q) ≡ false
    → contains (x ∷ y ∷ z ∷ []) q ≡ false
contains-triple x y z q h g i = rw (h, g, i) refl

-- None of the files of the Telegram proxy is `q`, and none of those of nginx.
pub record ApartTproxy (opts : Options) (q : Text) : Type 0 where
  pub profiles : (profiles_file opts.install_dir == q) ≡ false
  pub config : (config_file opts.install_dir == q) ≡ false
  pub index : (join_path default_public_dir (codes "index.html") == q) ≡ false

pub record ApartNginx (q : Text) : Type 0 where
  pub server : (server_file == q) ≡ false
  pub stream : (stream_file == q) ≡ false
  pub limits : (limits_file == q) ≡ false

ensure_site_index-other :
    (dir q : Text) (d : Disk)
    → (join_path dir (codes "index.html") == q) ≡ false
    → content q (ensure_site_index dir d).1 ≡ content q d
unfolding ensure_site_index
ensure_site_index-other dir q d apart = elim (Bool-cases (d.broken (make_dir dir))) [
  | inl b ↦ rw b refl
  | inr w ↦ rw w (elim (Bool-cases (stats (join_path dir (codes "index.html")) d)) [
    | inl s ↦ rw s refl
    | inr n ↦
        rw n (content-write_file_atomic_other (join_path dir (codes "index.html")) _ q 420 d apart)
  ])
]

-- A step whose result does not count has left the path alone.
abbrev pub Untouched :
    (Result RebuildError (List Action) → Bool)
    → Text
    → Disk
    → Result RebuildError (List Action) × Disk
    → Type 0
Untouched counts q d r = counts r.0 ≡ false → content q r.1 ≡ content q d

pub written-Untouched :
    (counts : Result RebuildError (List Action) → Bool) (q : Text)
    (wrong : CheckedError → RebuildError) (failure : Option CheckedError)
    (next : Disk → Result RebuildError (List Action) × Disk) (d d' : Disk)
    → content q d' ≡ content q d
    → Untouched counts q d' (next d')
    → Untouched counts q d (written wrong failure next d')
written-Untouched counts q wrong (some e) next d d' same step h = same
written-Untouched counts q wrong none next d d' same step h = step h ∙ same

module _ (k : Consumers) (opts : Options) (sup : Option Supervisor) (settings : Settings)
    (s : Store) (counts : Result RebuildError (List Action) → Bool) (q : Text)
    (subscriptions : (changed : Bool) (d : Disk)
      → Untouched counts q d (write_subscription_files k opts sup settings s changed d))
    (tproxy : ApartTproxy opts q) where
  put_tproxy-Untouched :
      (public_dir : Text) (r : Result TproxyError (Unit {0})) (d d' : Disk)
      → content q d' ≡ content q d
      → Untouched counts q d (
          put_tproxy k opts sup settings s
            (rendered_after k.marshal opts.install_dir settings.domain settings.webproxy_secret
              public_dir r)
            d')
  put_tproxy-Untouched public_dir (err e) d d' same = λ h. same
  put_tproxy-Untouched public_dir (ok _) d d' same =
      let files =
        rendered k.marshal opts.install_dir settings.domain settings.webproxy_secret public_dir in
      let r = write_checked files 384 none d' in
      written-Untouched counts q tproxy_config r.0.failure
        (write_subscription_files k opts sup settings s r.0.changed) d r.1
        (write_checked-other q files 384 none d' (contains-pair _ _ q tproxy.profiles tproxy.config)
          ∙ same)
        (subscriptions r.0.changed r.1)

  pub write_tproxy-Untouched :
      (d : Disk) → Untouched counts q d (write_tproxy k opts sup settings s d)
  unfolding write_tproxy Tproxy.files
  write_tproxy-Untouched d =
      elim (Bool-cases (d.broken (make_dir (join_path opts.install_dir (codes "tproxy"))))) [
        | inl b ↦ rw b (λ h. refl)
        | inr w ↦ rw w (
            put_tproxy-Untouched default_public_dir (ensure_site_index default_public_dir d).0 d
              (ensure_site_index default_public_dir d).1
              (ensure_site_index-other default_public_dir q d tproxy.index))
      ]

  module _ (nginx : ApartNginx q) where
    put_nginx-Untouched :
        (gen : GeneratorOptions) (stream : Result NginxError Text) (d : Disk)
        → Untouched counts q d (put_nginx k opts sup settings s (three_files gen d stream) d)
    put_nginx-Untouched gen (err e) d = λ h. refl
    put_nginx-Untouched gen (ok stream) d =
        let files = three_of gen d stream in
        let r = write_checked files 420 (some k.nginx_check) d in
        written-Untouched counts q nginx_config r.0.failure (write_tproxy k opts sup settings s) d
          r.1
          (write_checked-other q files 420 (some k.nginx_check) d
            (contains-triple _ _ _ q nginx.server nginx.stream nginx.limits))
          (write_tproxy-Untouched r.1)

    pub write_nginx-Untouched :
        (d : Disk) → Untouched counts q d (write_nginx k opts sup settings s d)
    unfolding write_nginx Server.files
    write_nginx-Untouched d =
        let gen = generator_options settings opts in
        elim (Bool-cases (any_broken (made_dirs gen) d)) [
          | inl b ↦ rw b (λ h. refl)
          | inr w ↦ rw w (put_nginx-Untouched gen (generate_stream_config gen) d)
        ]
