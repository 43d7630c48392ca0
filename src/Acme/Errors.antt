-- ===== src/Acme/Errors.antt =====
-- internal/acme/acme.go: the steps before the two writes fail with errors of their own.
use uncut_core.Base.Chain.{◌>>=◌}
use uncut_core.Base.{
  Option-cases, Result, ok, err, ◌≡◌, refl, inl, inr, Bool, true, false, Option, none, some,
}
use uncut_core.Text.{Text}
use uncut_core.Files.{Disk, read_file}
use uncut_core.Acme.{
  Manager, Lego, AcmeError, no_client, no_provider, no_registration, not_obtained, key_not_written,
  account_key_path, parsed, refused, answer, account_key, account_email, registration, obtained,
}

-- Whether the key of the certificate is what could not be written.
abbrev pub is_key_error : AcmeError → Bool
is_key_error (key_not_written op) = true
is_key_error e = false

abbrev pub StopsEarly {ℓ} : {A : Type ℓ} → Result AcmeError A → Type 0
StopsEarly (ok a) = Unit
StopsEarly (err e) = is_key_error e ≡ false

bind-StopsEarly :
    {A B : Type 0} (r : Result AcmeError A) (f : A → Result AcmeError B)
    → StopsEarly r
    → ((a : A) → StopsEarly (f a))
    → StopsEarly (r >>= f)
bind-StopsEarly (ok a) f h g = g a
bind-StopsEarly (err e) f h g = h

module _ (wrong : Text → AcmeError) (early : (e : Text) → is_key_error (wrong e) ≡ false) where
  refused-StopsEarly : (o : Option Text) → StopsEarly (refused wrong o)
  refused-StopsEarly none = tt
  refused-StopsEarly (some e) = early e

  answer-StopsEarly : {A : Type 0} (r : Result Text A) → StopsEarly (answer wrong r)
  answer-StopsEarly (ok a) = tt
  answer-StopsEarly (err e) = early e

module _ (lego : Lego) (m : Manager) where
  pub account_key-StopsEarly : (d : Disk) → StopsEarly (account_key lego m d).0
  unfolding account_key
  account_key-StopsEarly d =
      elim (Option-cases (parsed lego.parse_key (read_file (account_key_path m) d))) [
        | inr (key, e) ↦ rw e tt
        | inl e ↦ rw e (elim (Option-cases lego.new_key) [
          | inl n ↦ rw n refl
          | inr (key, n) ↦
              rw n (elim (Option-cases (lego.key_pem key)) [
                | inl p ↦ rw p tt
                | inr (pem, p) ↦ rw p tt
              ])
        ])
      ]

  registration-StopsEarly : (key : Text) → StopsEarly (registration lego m key)
  unfolding registration
  registration-StopsEarly key = elim (Option-cases (lego.resolve_account key)) [
    | inr (reg, e) ↦ rw e tt
    | inl e ↦
        rw e
          (answer-StopsEarly no_registration (λ _. refl) (lego.register key (account_email lego m)))
  ]

  pub obtained-StopsEarly : (key : Text) → StopsEarly (obtained lego m key)
  unfolding obtained
  obtained-StopsEarly key =
      bind-StopsEarly (refused no_client (lego.new_client (account_email lego m) key)) _
        (refused-StopsEarly no_client (λ _. refl) (lego.new_client (account_email lego m) key))
        (λ _.
          bind-StopsEarly (refused no_provider (lego.new_provider m.web_root)) _
            (refused-StopsEarly no_provider (λ _. refl) (lego.new_provider m.web_root))
            (λ _.
              bind-StopsEarly (refused no_provider (lego.set_provider m.web_root)) _
                (refused-StopsEarly no_provider (λ _. refl) (lego.set_provider m.web_root))
                (λ _.
                  bind-StopsEarly (registration lego m key) _ (registration-StopsEarly key) (λ reg.
                    answer-StopsEarly not_obtained (λ _. refl) (lego.obtain reg m.domain)))))
