-- ===== src/Nodeops/Certificates/Laws.antt =====
-- internal/nodeops/nodeops.go: SetCert on every branch.
use uncut_core.Base.{
  Bool-cases, Option-cases, Result, ok, err, Exec, pure, ◌>>◌, Result-cases, ◌≡◌, refl, ap, ◌⊎◌,
  inl, inr, Option, none, some, [], ◌++◌,
}
use uncut_core.Text.{Text, codes}
use uncut_core.Config.{Settings}
use uncut_core.Files.{DiskOp, make_dir, Disk, write_file_atomic, content, join_path}
use uncut_core.Acme.{
  Manager, Obtained, AcmeError, certificate_not_written, key_not_written, cert_path, key_path,
}
use uncut_core.Acme.Issue.{put_certificate, put_key}
use uncut_core.Acme.Laws.{put-cases}
use uncut_core.Setup.{certs_dir}
use uncut_core.Setup.Rebuild.{Node}
use uncut_core.Nodeops.{reload_failed, Context, loaded_settings, reloaded}
use uncut_core.Nodeops.Certificates.{
  FileError, command_failed, not_a_pair, not_covered, no_certs_directory, certificate_not_stored,
  key_not_stored, directory_made, node_reloaded, put_pair, set_cert,
}

module _ (k : Context) (domain cert key : Text) where
  abbrev installing : Manager
  installing = record {
    domain = domain;
    email = [];
    certs_dir = certs_dir k.options;
    web_root = [];
  }

  abbrev given : Obtained
  given = record { certificate = cert; private_key = key }

  abbrev put_result : Result AcmeError (Unit {0}) → Result FileError (Unit {0})
  put_result (ok _) = ok tt
  put_result (err (key_not_written op)) = err (key_not_stored op)
  put_result (err (certificate_not_written op)) = err (certificate_not_stored op)
  put_result (err e) = err no_certs_directory

  abbrev issued : Disk → Result AcmeError (Unit {0}) × Disk
  issued d = (put_certificate installing given >> put_key installing given) d

  -- The two writes are those of an issuance.
  put_pair-issued :
      (n : Node)
      → put_pair k domain cert key n
        ≡ (put_result (issued n.disk).0, record n { disk = (issued n.disk).1 })
  unfolding put_certificate put_key cert_path key_path
  put_pair-issued n =
      let crt = join_path (certs_dir k.options) (domain ++ codes ".crt") in
      let keys = join_path (certs_dir k.options) (domain ++ codes ".key") in
      elim (Result-cases (write_file_atomic crt cert 420 n.disk).0) [
        | inr (op, e) ↦ rw e refl
        | inl (u, e) ↦
            let d' = (write_file_atomic crt cert 420 n.disk).1 in
            elim (Result-cases (write_file_atomic keys key 384 d').0) [
              | inr (op, h) ↦ rw e (rw h refl)
              | inl (v, h) ↦ rw e (rw h refl)
            ]
      ]

  abbrev pub crt_path : Text
  crt_path = join_path (certs_dir k.options) (domain ++ codes ".crt")

  abbrev pub keys_path : Text
  keys_path = join_path (certs_dir k.options) (domain ++ codes ".key")

  abbrev PutCases : Disk → Result FileError (Unit {0}) × Node → Type 0
  PutCases d r =
      ((r.0 ≡ ok tt)
        × (content crt_path r.1.disk ≡ some cert)
        × (content keys_path r.1.disk ≡ some key))
      ⊎ ((op : DiskOp) × (r.0 ≡ err (key_not_stored op))
          × (content crt_path r.1.disk ≡ some cert)
          × (content keys_path r.1.disk ≡ content keys_path d))
      ⊎ ((op : DiskOp) × (r.0 ≡ err (certificate_not_stored op))
          × ((path : Text) → content path r.1.disk ≡ content path d))

  put_pair-cases : (n : Node) → PutCases n.disk (put_pair k domain cert key n)
  unfolding cert_path key_path
  put_pair-cases n = rw (put_pair-issued n) (elim (put-cases installing given n.disk) [
    | inl (done, c, h) ↦ inl (ap put_result done, c, h)
    | inr (inl (op, broke, c, h)) ↦ inr (inl (op, ap put_result broke, c, h))
    | inr (inr (op, broke, all)) ↦ inr (inr (op, ap put_result broke, all))
  ])

module _ (k : Context) (pair : Text → Text → Result Text Text) (covers : Text → Text → Option Text)
    (cert key : Text) where
  abbrev EndsAs : Text → Result FileError Text → Type 0
  EndsAs domain r = (r ≡ ok domain) ⊎ ((e : Text) × (r ≡ err (command_failed (reload_failed e))))

  -- What an installation for the domain can come to, from the files of `d`.
  abbrev pub Installed : Text → Disk → Result FileError Text × Node → Type 0
  Installed domain d r =
      (EndsAs domain r.0
        × (content (crt_path k domain cert key) r.1.disk ≡ some cert)
        × (content (keys_path k domain cert key) r.1.disk ≡ some key))
      ⊎ ((op : DiskOp) × (r.0 ≡ err (key_not_stored op))
          × (content (crt_path k domain cert key) r.1.disk ≡ some cert)
          × (content (keys_path k domain cert key) r.1.disk
              ≡ content (keys_path k domain cert key) d))

  abbrev pub Refused : Disk → Result FileError Text × Node → Type 0
  Refused d r =
      (e : FileError) × (r.0 ≡ err e) × ((path : Text) → content path r.1.disk ≡ content path d)

  abbrev pub SetCertCases : Node → Result FileError Text × Node → Type 0
  SetCertCases n r =
      ((settings : Settings) × ((loaded_settings k n.store).0 ≡ ok settings)
        × (leaf : Text) × (pair cert key ≡ ok leaf)
        × (covers leaf settings.domain ≡ none)
        × Installed settings.domain n.disk r)
      ⊎ Refused n.disk r

  reloaded-Installed :
      (domain : Text) (d : Disk) (n : Node)
      → content (crt_path k domain cert key) n.disk ≡ some cert
      → content (keys_path k domain cert key) n.disk ≡ some key
      → Installed domain d ((node_reloaded k >> pure domain) n)
  unfolding node_reloaded reloaded
  reloaded-Installed domain d n c h = elim (Option-cases (k.reload n.disk n.store)) [
    | inl e ↦ inl (inl (rw e refl), rw e c, rw e h)
    | inr (why, e) ↦ inl (inr (why, rw e refl), rw e c, rw e h)
  ]

  abbrev install_for : Text → Exec Node FileError Text
  install_for domain = put_pair k domain cert key >> (node_reloaded k >> pure domain)

  install_for-cases :
      (domain : Text) (n : Node)
      → Installed domain n.disk (install_for domain n) ⊎ Refused n.disk (install_for domain n)
  install_for-cases domain n =
      let n' = (put_pair k domain cert key n).1 in
      elim (put_pair-cases k domain cert key n) [
        | inl (done, c, h) ↦ inl (rw done (reloaded-Installed domain n.disk n' c h))
        | inr (inl (op, broke, c, h)) ↦ inl (inr (op, rw broke refl, rw broke c, rw broke h))
        | inr (inr (op, broke, all)) ↦
            inr (certificate_not_stored op, rw broke refl, λ path. rw broke (all path))
      ]

  set_cert-after :
      (settings : Settings) (leaf : Text) (n : Node)
      → Installed settings.domain n.disk
          ((directory_made (certs_dir k.options) >> install_for settings.domain) n)
        ⊎ Refused n.disk ((directory_made (certs_dir k.options) >> install_for settings.domain) n)
  set_cert-after settings leaf n =
      elim (Bool-cases (n.disk.broken (make_dir (certs_dir k.options)))) [
        | inl b ↦ rw b (inr (no_certs_directory, refl, λ path. refl))
        | inr w ↦ rw w (install_for-cases settings.domain n)
      ]

  -- A certificate is installed only if its key fits it and it covers the domain that the settings
  -- read. Then both files hold what was given, whether or not the reload that follows works; or the
  -- write of the key failed, and the new certificate stands beside the old key. In every other case
  -- there is an error and no file has changed.
  pub set_cert_lem : (n : Node) → SetCertCases n (set_cert k pair covers cert key n)
  unfolding set_cert
  set_cert_lem n = elim (Result-cases (loaded_settings k n.store).0) [
    | inr (e, h) ↦ rw h (inr (command_failed e, refl, λ path. refl))
    | inl (settings, h) ↦ rw h (elim (Result-cases (pair cert key)) [
      | inr (e, p) ↦ rw p (inr (not_a_pair e, refl, λ path. refl))
      | inl (leaf, p) ↦ rw p (elim (Option-cases (covers leaf settings.domain)) [
        | inr (e, c) ↦ rw c (inr (not_covered e, refl, λ path. refl))
        | inl c ↦
            rw c
              (elim (set_cert-after settings leaf
                (record n { store = (loaded_settings k n.store).1 })) [
                  | inl done ↦ inl (settings, refl, leaf, refl, c, done)
                  | inr r ↦ inr r
                ])
      ])
    ])
  ]
