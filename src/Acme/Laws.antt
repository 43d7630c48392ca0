-- ===== src/Acme/Laws.antt =====
-- internal/acme/acme.go: what an issuance leaves on disk.
use uncut_core.Base.{
  Bool-cases, Option-cases, ◌==◌, Result, ok, err, ◌>>◌, Result-cases, ℕ, ◌≡◌, refl, sym, ap, subst,
  ◌∙◌, ◌⊎◌, inl, inr, if_neg, false, Option, none, some, [], ◌∷◌, ◌++◌, append_assoc, arith,
}
use uncut_core.Text.{Text, codes, text_eq}
use uncut_core.Files.{DiskOp, make_dir, Disk, write_file_atomic, content, read_file, join_path}
use uncut_core.Files.Laws.{
  content-write_file_atomic, content-write_file_atomic_err, content-write_file_atomic_other,
}
use uncut_core.Acme.{
  Manager, Obtained, Lego, AcmeError, no_certs_dir, certificate_not_written, key_not_written,
  cert_path, key_path, account_key_path, parsed, kept_key, key_from, account_key, obtained,
}
use uncut_core.Acme.Errors.{is_key_error, StopsEarly, account_key-StopsEarly, obtained-StopsEarly}
use uncut_core.Acme.Issue.{put_certificate, put_key, issue}

last_or : ℕ → Text → ℕ
last_or z [] = z
last_or z (c ∷ s) = last_or c s

last_or-append : (z : ℕ) (s t : Text) → last_or z (s ++ t) ≡ last_or (last_or z s) t
unfolding last_or
last_or-append z [] t = refl
last_or-append z (c ∷ s) t = last_or-append c s t

-- Two texts that end in different characters differ.
ne_of_last : (s t : Text) → (last_or 0 s ≡ last_or 0 t → ⊥) → (s == t) ≡ false
ne_of_last s t h = elim (text_eq.dec s t) [
  | yes e ↦ absurd (h (ap (last_or 0) e))
  | no n ↦ rw (if_neg _ n) refl
]

ends_in :
    (dir s t : Text)
    → last_or 0 (join_path dir (s ++ t)) ≡ last_or (last_or 0 (dir ++ (b'/' ∷ s))) t
unfolding join_path
ends_in dir s t = rw (← append_assoc dir (b'/' ∷ s) t) (last_or-append 0 (dir ++ (b'/' ∷ s)) t)

crt-ne-key :
    (dir a b : Text)
    → (join_path dir (a ++ codes ".crt") == join_path dir (b ++ codes ".key")) ≡ false
unfolding last_or
crt-ne-key dir a b =
    ne_of_last _ _
      (λ h. omega (arith, sym (ends_in dir a (codes ".crt")) ∙ (h ∙ ends_in dir b (codes ".key"))))

module _ (m : Manager) where
  pub crt-ne-account : (cert_path m == account_key_path m) ≡ false
  unfolding cert_path account_key_path
  crt-ne-account = crt-ne-key m.certs_dir m.domain (codes "acme_account")

  pub crt-ne-key_path : (cert_path m == key_path m) ≡ false
  unfolding cert_path key_path
  crt-ne-key_path = crt-ne-key m.certs_dir m.domain m.domain

module _ (lego : Lego) (m : Manager) where
  kept_key-content :
      (other key : Text) (pem : Option Text) (d : Disk)
      → (account_key_path m == other) ≡ false
      → content other (kept_key lego m key pem d).1 ≡ content other d
  kept_key-content other key none d apart = refl
  kept_key-content other key (some pem) d apart =
      content-write_file_atomic_other (account_key_path m) pem other 384 d apart

  key_from-content :
      (other : Text) (stored : Option Text) (d : Disk)
      → (account_key_path m == other) ≡ false
      → content other (key_from lego m stored d).1 ≡ content other d
  key_from-content other (some key) d apart = refl
  key_from-content other none d apart = elim (Option-cases lego.new_key) [
    | inl e ↦ rw e refl
    | inr (key, e) ↦ rw e (kept_key-content other key (lego.key_pem key) d apart)
  ]

  -- Getting the account key touches no file but its own.
  account_key-content :
      (other : Text) (d : Disk)
      → (account_key_path m == other) ≡ false
      → content other (account_key lego m d).1 ≡ content other d
  unfolding account_key
  account_key-content other d apart =
      key_from-content other (parsed lego.parse_key (read_file (account_key_path m) d)) d apart

module _ (m : Manager) (got : Obtained) (d : Disk) where
  -- What a write of the certificate and then of the key does.
  pub put-cases :
      let r = (put_certificate m got >> put_key m got) d in
      ((r.0 ≡ ok tt)
        × (content (cert_path m) r.1 ≡ some got.certificate)
        × (content (key_path m) r.1 ≡ some got.private_key))
      ⊎ ((op : DiskOp) × (r.0 ≡ err (key_not_written op))
          × (content (cert_path m) r.1 ≡ some got.certificate)
          × (content (key_path m) r.1 ≡ content (key_path m) d))
      ⊎ ((op : DiskOp) × (r.0 ≡ err (certificate_not_written op))
          × ((path : Text) → content path r.1 ≡ content path d))
  unfolding put_certificate put_key
  put-cases = elim (Result-cases (write_file_atomic (cert_path m) got.certificate 420 d).0) [
    | inr (op, e) ↦ inr (
        inr (
          op,
          rw e refl,
          λ path.
              rw e (content-write_file_atomic_err (cert_path m) got.certificate path 420 d op e),
        ))
    | inl (u, e) ↦
        let d' = (write_file_atomic (cert_path m) got.certificate 420 d).1 in
        elim (Result-cases (write_file_atomic (key_path m) got.private_key 384 d').0) [
          | inr (op, k) ↦ inr (
              inl (
                op,
                rw e (rw k refl),
                rw e (
                    content-write_file_atomic_err (key_path m) got.private_key (cert_path m) 384 d'
                      op k
                    ∙ (content-write_file_atomic (cert_path m) got.certificate (cert_path m) 420 d e
                        ∙ ground arith)),
                rw e (
                    content-write_file_atomic_err (key_path m) got.private_key (key_path m) 384 d'
                      op k
                    ∙ (content-write_file_atomic (cert_path m) got.certificate (key_path m) 420 d e
                        ∙ rw (crt-ne-key_path m) refl)),
              ))
          | inl (v, k) ↦ inl (
            rw e (rw k refl),
            rw e (
                content-write_file_atomic_other (key_path m) got.private_key (cert_path m) 384 d'
                  (ground (arith, crt-ne-key_path m))
                ∙ (content-write_file_atomic (cert_path m) got.certificate (cert_path m) 420 d e
                    ∙ ground arith)),
            rw e (
                content-write_file_atomic (key_path m) got.private_key (key_path m) 384 d' k
                ∙ ground arith),
          )
        ]
  ]

module _ (lego : Lego) (m : Manager) (d : Disk) where
  abbrev pub IssueCases : Result AcmeError (Unit {0}) × Disk → Type 0
  IssueCases r =
      ((got : Obtained) × (key : Text) × (obtained lego m key ≡ ok got)
        × (r.0 ≡ ok tt)
        × (content (cert_path m) r.1 ≡ some got.certificate)
        × (content (key_path m) r.1 ≡ some got.private_key))
      ⊎ ((got : Obtained) × (key : Text) × (op : DiskOp) × (obtained lego m key ≡ ok got)
          × (r.0 ≡ err (key_not_written op))
          × (content (cert_path m) r.1 ≡ some got.certificate)
          × ((account_key_path m == key_path m) ≡ false
              → content (key_path m) r.1 ≡ content (key_path m) d))
      ⊎ ((e : AcmeError) × (is_key_error e ≡ false)
          × (r.0 ≡ err e)
          × (content (cert_path m) r.1 ≡ content (cert_path m) d))

  -- Once the certificate is obtained and its directory is there.
  put-IssueCases :
      (key : Text) (got : Obtained) (d' : Disk)
      → obtained lego m key ≡ ok got
      → content (cert_path m) d' ≡ content (cert_path m) d
      → ((account_key_path m == key_path m) ≡ false
          → content (key_path m) d' ≡ content (key_path m) d)
      → IssueCases ((put_certificate m got >> put_key m got) d')
  put-IssueCases key got d' o same kept = elim (put-cases m got d') [
    | inl (done, c, k) ↦ inl (got, key, o, done, c, k)
    | inr (inl (op, failed, c, k)) ↦ inr (inl (got, key, op, o, failed, c, λ apart. k ∙ kept apart))
    | inr (inr (op, failed, all)) ↦
        inr (inr (certificate_not_written op, refl, failed, all (cert_path m) ∙ same))
  ]

  pub issue-cases : IssueCases (issue lego m d)
  unfolding issue
  issue-cases =
      let d' = (account_key lego m d).1 in
      let same = account_key-content lego m (cert_path m) d (ground (arith, crt-ne-account m)) in
      elim (Result-cases (account_key lego m d).0) [
        | inr (e, h) ↦
            rw h (inr (inr (e, subst StopsEarly h (account_key-StopsEarly lego m d), refl, same)))
        | inl (key, h) ↦ rw h (elim (Result-cases (obtained lego m key)) [
          | inr (e, g) ↦
              rw g (inr (inr (e, subst StopsEarly g (obtained-StopsEarly lego m key), refl, same)))
          | inl (got, g) ↦ rw g (elim (Bool-cases (d'.broken (make_dir m.certs_dir))) [
            | inl b ↦ rw b (inr (inr (no_certs_dir, refl, refl, same)))
            | inr w ↦ rw w (
                put-IssueCases key got d' g same
                  (λ apart. account_key-content lego m (key_path m) d apart))
          ])
        ])
      ]
