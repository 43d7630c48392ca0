-- ===== src/Acme/Ensure.antt =====
-- internal/acme/acme.go: Ensure, on every branch.
use uncut_core.Base.{
  Bool-cases, ◌==◌, Result, ok, err, ℕ, ◌≡◌, refl, ap, ◌⊎◌, inl, inr, Bool, true, false, some,
}
use uncut_core.Text.{Text, text_eq}
use uncut_core.Files.{DiskOp, read, Disk, content, read_file}
use uncut_core.Acme.{
  Manager, Certificate, Obtained, Lego, AcmeError, key_not_written, cert_path, key_path,
  account_key_path, is_current, certificate, valid, obtained,
}
use uncut_core.Acme.Issue.{ensure}
use uncut_core.Acme.Errors.{is_key_error}
use uncut_core.Acme.Laws.{issue-cases}

module _ (lego : Lego) (m : Manager) where
  valid-current :
      (now : ℕ) (d : Disk) (text : Text) (c : Certificate)
      → d.broken (read (cert_path m)) ≡ false
      → content (cert_path m) d ≡ some text
      → lego.parse_certificate text ≡ some c
      → is_current now c ≡ true
      → valid lego m now d ≡ true
  unfolding valid certificate read_file
  valid-current now d text c works held reads_as fresh =
      let bytes : read_file (cert_path m) d ≡ some text = rw works held in
      let leaf : certificate lego m d ≡ some c = rw bytes reads_as in rw (leaf, valid) fresh

  -- A certificate file that can be read and holds a current certificate is left alone.
  ensure-current :
      (now : ℕ) (d : Disk) (text : Text) (c : Certificate)
      → d.broken (read (cert_path m)) ≡ false
      → content (cert_path m) d ≡ some text
      → lego.parse_certificate text ≡ some c
      → is_current now c ≡ true
      → ensure lego m now d ≡ (ok false, d)
  unfolding ensure
  ensure-current now d text c works held reads_as fresh =
      rw (valid-current now d text c works held reads_as fresh) refl

module _ (lego : Lego) (m : Manager) (now : ℕ) (d : Disk) where
  -- The four ways in which a round can end.
  abbrev pub EnsureCases : Result AcmeError Bool × Disk → Type 0
  EnsureCases r =
      ((valid lego m now d ≡ true) × (r ≡ (ok false, d)))
      ⊎ ((valid lego m now d ≡ false)
          × (got : Obtained) × (key : Text) × (obtained lego m key ≡ ok got)
          × (r.0 ≡ ok true)
          × (content (cert_path m) r.1 ≡ some got.certificate)
          × (content (key_path m) r.1 ≡ some got.private_key))
      ⊎ ((valid lego m now d ≡ false)
          × (got : Obtained) × (key : Text) × (op : DiskOp) × (obtained lego m key ≡ ok got)
          × (r.0 ≡ err (key_not_written op))
          × (content (cert_path m) r.1 ≡ some got.certificate)
          × (content (key_path m) r.1 ≡ content (key_path m) d))
      ⊎ ((valid lego m now d ≡ false)
          × (e : AcmeError) × (is_key_error e ≡ false)
          × (r.0 ≡ err e)
          × (content (cert_path m) r.1 ≡ content (cert_path m) d))

  -- Where the account key has a file of its own: a round that finds a valid certificate changes no
  -- file and reports no issuance. Any other either reports an issuance, with the certificate and the
  -- key of one answer of the authority in place; or fails at the write of the key, with the new
  -- certificate beside the old key; or fails before, with the certificate file as it was.
  pub ensure_lem : (account_key_path m == key_path m) ≡ false → EnsureCases (ensure lego m now d)
  unfolding ensure
  ensure_lem apart = elim (Bool-cases (valid lego m now d)) [
    | inl v ↦ inl (v, rw v refl)
    | inr n ↦ elim (issue-cases lego m d) [
      | inl (got, key, o, done, c, k) ↦
          inr (inl (n, got, key, o, rw n (rw done refl), rw n c, rw n k))
      | inr (inl (got, key, op, o, w, c, k)) ↦
          inr (inr (inl (n, got, key, op, o, rw n (rw w refl), rw n c, rw n (k apart))))
      | inr (inr (e, early, w, c)) ↦ inr (inr (inr (n, e, early, rw n (rw w refl), rw n c)))
    ]
  ]

  -- When the write of the key fails, the new certificate stands beside the old key, and a later
  -- round at which whatever the authority issued is current and can be read takes it for valid: it
  -- issues nothing and changes nothing.
  pub ensure_after_key_failure :
      (later : ℕ) (op : DiskOp)
      → (account_key_path m == key_path m) ≡ false
      → ((got : Obtained) (key : Text)
          → obtained lego m key ≡ ok got
          → (c : Certificate) × (lego.parse_certificate got.certificate ≡ some c)
            × (is_current later c ≡ true))
      → let r = ensure lego m now d in
        r.0 ≡ err (key_not_written op)
        → r.1.broken (read (cert_path m)) ≡ false
        → (content (key_path m) r.1 ≡ content (key_path m) d)
          × (ensure lego m later r.1 ≡ (ok false, r.1))
  ensure_after_key_failure later op apart current failed reads_back = elim (ensure_lem apart) [
    | inl (v, same) ↦ cc (failed, ap (λ r. r.0) same)
    | inr (inl (n, got, key, o, done, c, k)) ↦ cc (failed, done)
    | inr (inr (inl (n, got, key, op', o, w, c, k))) ↦
        let (cert, reads_as, fresh) = current got key o in
        (
          k,
          ensure-current lego m later (ensure lego m now d).1 got.certificate cert reads_back c
              reads_as fresh,
        )
    | inr (inr (inr (n, e, early, w, c))) ↦ cc (failed, early, w)
  ]
