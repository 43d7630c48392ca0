-- ===== src/Acme/Waits.antt =====
-- internal/acme/acme.go: the delays of Maintain.
use uncut_core.Base.{
  ltb, if◌then◌else◌, Result, ok, err, Result-cases, ℕ, suc, ◌*◌, ◌^◌, ◌≡◌, refl, ap, inl, inr,
  Bool, List, [], ◌∷◌, map, arith,
}
use uncut_core.Files.{Disk}
use uncut_core.Acme.{AcmeError}
use uncut_core.Acme.Issue.{
  Round, round_result, check_interval, first_backoff, doubled, Pass, maintain,
}

abbrev pub waits : List Pass → List ℕ
waits passes = map (λ p. p.wait) passes

abbrev pub outcomes : List Pass → List (Result AcmeError Bool)
outcomes passes = map (λ p. p.outcome) passes

-- The delay after `n` failures in a row and one more.
abbrev pub delay : ℕ → ℕ
delay n = if ltb (5 * 2 ^ n) 600 then 5 * 2 ^ n else 600

-- The delays that a list of outcomes calls for, after `n` failures in a row.
abbrev pub delays : ℕ → List (Result AcmeError Bool) → List ℕ
delays n [] = []
delays n (ok renewed ∷ os) = check_interval ∷ delays 0 os
delays n (err e ∷ os) = delay n ∷ delays (suc n) os

pow_suc : (n : ℕ) → 2 ^ suc n ≡ 2 ^ n * 2
pow_suc n = omega arith

doubled-delay : (n : ℕ) → doubled (delay n) ≡ delay (suc n)
unfolding doubled
doubled-delay n = ground (arith, pow_suc n)

maintain-waits_from :
    (rs : List Round) (n : ℕ) (d : Disk)
    → waits (maintain rs (delay n) d).0 ≡ delays n (outcomes (maintain rs (delay n) d).0)
unfolding maintain
maintain-waits_from [] n d = refl
maintain-waits_from (r ∷ rs) n d = elim (Result-cases (round_result r d).0) [
  | inl (renewed, e) ↦
      rw e (
        ap (λ ws. check_interval ∷ ws)
          (maintain-waits_from rs 0 (r.meanwhile (round_result r d).1)))
  | inr (e, w) ↦
      rw (w, doubled-delay n)
        (ap (λ ws. delay n ∷ ws)
          (maintain-waits_from rs (suc n) (r.meanwhile (round_result r d).1)))
]

-- Every round that ends well is followed by an hour's wait. One that fails, after n failures in a
-- row, is followed by 5 * 2 ^ n seconds, ten minutes at most.
pub maintain-waits :
    (rs : List Round) (d : Disk)
    → waits (maintain rs first_backoff d).0 ≡ delays 0 (outcomes (maintain rs first_backoff d).0)
maintain-waits rs d = maintain-waits_from rs 0 d
