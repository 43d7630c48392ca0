-- ===== src/Tproxy/Laws.antt =====
-- internal/tproxy: what a refresh leaves on disk, and when a bridge passes its check.
use uncut_core.Base.{
  if◌then◌else◌, Bool-cases, Option-cases, ◌==◌, ok, err, Result-cases, ℕ, zero, suc, ◌+◌, ◌≤◌, ◌<◌,
  ◌≡◌, refl, sym, ap, subst, ◌∙◌, ◌↔◌, ◌⊎◌, inl, inr, Bool, true, false, Option, none, some, [],
  arith, dec_lt,
}
use uncut_core.Text.{Text, codes, text_eq, is_blank}
use uncut_core.Text.Search.{contains_text}
use uncut_core.Text.Encode.{Bytes}
use uncut_core.Links.{derive_capability}
use uncut_core.Files.{read, Disk, write_file_atomic, content, read_file}
use uncut_core.Files.Laws.{
  content-write_file_atomic, content-write_file_atomic_err, content-write_file_atomic_other,
}
use uncut_core.Tproxy.{
  Answer, no_answer, status, RefreshError, not_stored, has_marker, body_of, holds, refresh_file,
  secret_path, multi_path, changed_by, update,
}
use uncut_core.Tproxy.SelfCheck.{
  bridge_page_marker, cancelled, probe_body, page_result, probe_from, check_bridge,
}

module _ (marker : Text) where
  -- A body that is taken is the whole of an answer with status 200, is not empty and has the marker.
  abbrev pub Taken : Answer → Text → Type 0
  Taken answer text =
      (answer ≡ status 200 (some text)) × (is_blank text ≡ false) × (has_marker marker text ≡ true)

  body_of-Taken :
      (answer : Answer) (text : Text) → body_of marker answer ≡ ok text → Taken answer text
  unfolding body_of
  body_of-Taken no_answer text h = cc
  body_of-Taken (status n none) text h = ground (arith, h)
  body_of-Taken (status n (some body)) text h = ground (arith, h)

holds-some : (o : Option Text) (text : Text) → holds o text ≡ true → o ≡ some text
holds-some none text h = cc
holds-some (some old) text h = elim (text_eq.dec old text) [
  | yes e ↦ ap some e
  | no n ↦ absurd (ground (arith, h))
]

module _ (path marker : Text) (answer : Answer) (d : Disk) where
  holds-content : (text : Text) → holds (read_file path d) text ≡ true → content path d ≡ some text
  unfolding read_file
  holds-content text h = elim (Bool-cases (d.broken (read path))) [
    | inl b ↦ cc (h, b)
    | inr w ↦
        holds-some (content path d) text
          (subst (λ b. holds (if b then none else content path d) text ≡ true) w h)
  ]

  -- A refresh that reports a change has put the body it took in the place of another; one that
  -- reports none has changed no file, and found the body there; one that fails has changed what no
  -- path holds.
  pub refresh_file_lem :
      let r = refresh_file path marker answer d in
      ((text : Text) × Taken marker answer text
        × (r.0 ≡ ok true)
        × (content path r.1 ≡ some text)
        × ((other : Text) → (path == other) ≡ false → content other r.1 ≡ content other d))
      ⊎ ((text : Text) × Taken marker answer text
          × (r ≡ (ok false, d))
          × (content path d ≡ some text))
      ⊎ ((e : RefreshError) × (r.0 ≡ err e)
          × ((other : Text) → content other r.1 ≡ content other d))
  unfolding refresh_file
  refresh_file_lem = elim (Result-cases (body_of marker answer)) [
    | inr (e, h) ↦ rw h (inr (inr (e, refl, λ other. refl)))
    | inl (text, h) ↦ rw h (elim (Bool-cases (holds (read_file path d) text)) [
      | inl same ↦
          rw same
            (inr (inl (text, body_of-Taken marker answer text h, refl, holds-content text same)))
      | inr new ↦ rw new (elim (Result-cases (write_file_atomic path text 416 d).0) [
        | inl (u, w) ↦ inl (
          text,
          body_of-Taken marker answer text h,
          rw w refl,
          content-write_file_atomic path text path 416 d w ∙ ground arith,
          λ other apart. content-write_file_atomic_other path text other 416 d apart,
        )
        | inr (op, w) ↦ inr (
            inr (
              not_stored op,
              rw w refl,
              λ other. content-write_file_atomic_err path text other 416 d op w,
            ))
      ])
    ])
  ]

  pub refresh_file-unchanged :
      changed_by (refresh_file path marker answer d).0 ≡ false
      → (other : Text) → content other (refresh_file path marker answer d).1 ≡ content other d
  refresh_file-unchanged h other = elim refresh_file_lem [
    | inl (text, taken, done, held, others) ↦ cc (h, done)
    | inr (inl (text, taken, same, held)) ↦ ap (λ r. content other r.1) same
    | inr (inr (e, failed, all)) ↦ all other
  ]

-- A round after which mtproto-proxy is not restarted has left what every path holds as it was.
pub update-unchanged :
    (secret_answer multi_answer : Answer) (d : Disk) (path : Text)
    → (update secret_answer multi_answer d).0 ≡ false
    → content path (update secret_answer multi_answer d).1 ≡ content path d
unfolding update
update-unchanged secret_answer multi_answer d path h =
    let first = refresh_file secret_path [] secret_answer d in
    refresh_file-unchanged multi_path (codes "proxy_for") multi_answer first.1 (ground (arith, h))
      path
    ∙ refresh_file-unchanged secret_path [] secret_answer d (ground (arith, h)) path

passed : (body : Text) → page_result body ≡ ok tt → contains_text bridge_page_marker body ≡ true
unfolding page_result
passed body h = ground (arith, h)

passes : (body : Text) → contains_text bridge_page_marker body ≡ true → page_result body ≡ ok tt
unfolding page_result
passes body h = rw h refl

module _ (probe : ℕ → Answer) (stops : ℕ → Bool) where
  -- The attempts from `k` to before `n` got no page, and no wait after them was cut short.
  abbrev pub AllMissed : ℕ → ℕ → Type 0
  AllMissed k n = (j : ℕ) → k ≤ j → j < n → (probe_body (probe j) ≡ none) × (stops j ≡ false)

  -- A page is the first answer, among the attempts from `k` on.
  abbrev pub FirstPage : ℕ → ℕ → Type 0
  FirstPage k n =
      (i : ℕ) × (body : Text) × (k ≤ i)
      × (i < n)
      × AllMissed k i
      × (probe_body (probe i) ≡ some body)
      × (contains_text bridge_page_marker body ≡ true)

  module _ (left k : ℕ) where
    step-answered :
        (body : Text)
        → probe_body (probe k) ≡ some body
        → probe_from probe stops (suc left) k ≡ page_result body
    unfolding probe_from
    step-answered body got = rw got refl

    step-cancelled :
        probe_body (probe k) ≡ none
        → stops k ≡ true
        → probe_from probe stops (suc left) k ≡ err cancelled
    unfolding probe_from
    step-cancelled missed stop = rw (missed, stop) refl

    step-next :
        probe_body (probe k) ≡ none
        → stops k ≡ false
        → probe_from probe stops (suc left) k ≡ probe_from probe stops left (suc k)
    unfolding probe_from
    step-next missed on = rw (missed, on) refl

  AllMissed-before :
      (k i : ℕ)
      → probe_body (probe k) ≡ none
      → stops k ≡ false
      → AllMissed (suc k) i
      → AllMissed k i
  AllMissed-before k i missed on rest j lo hi = elim (dec_lt k j) [
    | yes later ↦ rest j (omega arith) hi
    | no here ↦
        subst (λ x. (probe_body (probe x) ≡ none) × (stops x ≡ false)) (omega arith) (missed, on)
  ]

  probe_from-page :
      (left k n : ℕ) → k + left ≡ n → probe_from probe stops left k ≡ ok tt → FirstPage k n
  unfolding probe_from
  probe_from-page zero k n e h = cc
  probe_from-page (suc left) k n e h = elim (Option-cases (probe_body (probe k))) [
    | inr (body, got) ↦ (
      k,
      body,
      omega arith,
      omega arith,
      λ j lo hi. absurd (omega arith),
      got,
      passed body (sym (step-answered left k body got) ∙ h),
    )
    | inl missed ↦ elim (Bool-cases (stops k)) [
      | inl stop ↦ cc (h, step-cancelled left k missed stop)
      | inr on ↦
          let (i, body, lo, hi, before, got, page) =
            probe_from-page left (suc k) n (omega arith) (sym (step-next left k missed on) ∙ h) in
          (i, body, omega arith, hi, AllMissed-before k i missed on before, got, page)
    ]
  ]

  page-probe_from :
      (left k n : ℕ) → k + left ≡ n → FirstPage k n → probe_from probe stops left k ≡ ok tt
  page-probe_from zero k n e (i, body, lo, hi, before, got, page) = absurd (omega arith)
  page-probe_from (suc left) k n e (i, body, lo, hi, before, got, page) = elim (dec_lt k i) [
    | yes later ↦
        step-next left k (before k (omega arith) later).0 (before k (omega arith) later).1
        ∙ page-probe_from left (suc k) n (omega arith)
            (i, body, omega arith, hi, λ j l u. before j (omega arith) u, got, page)
    | no here ↦
        step-answered left k body (subst (λ x. probe_body (probe x) ≡ some body) (omega arith) got)
        ∙ passes body page
  ]

  -- The check of the bridge ends well exactly if the secret gives a capability and, within twenty
  -- attempts, the first one that is answered gets a page with the marker, with no wait before it cut
  -- short.
  pub check_bridge_lem :
      (hmac_sha256 : Bytes → Bytes → Bytes) (domain secret : Text)
      → (check_bridge probe stops hmac_sha256 domain secret ≡ ok tt)
        ↔ ((is_blank (derive_capability hmac_sha256 domain secret) ≡ false) × FirstPage 0 20)
  unfolding check_bridge
  check_bridge_lem hmac_sha256 domain secret =
      elim (Bool-cases (is_blank (derive_capability hmac_sha256 domain secret))) [
        | inl b ↦ rw b (λ h. cc, λ h. cc (h.0))
        | inr n ↦ rw n (
          λ h. (refl, probe_from-page 20 0 20 (omega arith) h),
          λ h. page-probe_from 20 0 20 (omega arith) h.1,
        )
      ]
