-- ===== src/Supervisor/Probes.antt =====
-- internal/supervisor/supervisor.go: the count of failed liveness probes.
use uncut_core.Base.{
  ltb, if◌then◌else◌, ℕ, zero, suc, ◌≡◌, refl, ap, ◌∙◌, true, false, some, ◌∷◌, arith,
}
use uncut_core.Supervisor.{ManagedProcess, sig_kill, Supervisor, store_at}
use uncut_core.Supervisor.Control.{signal, probed}

store_at-same :
    (a : ℕ) (mp : ManagedProcess) (objects : ℕ → ManagedProcess) → store_at a mp objects a ≡ mp
unfolding store_at
store_at-same a mp objects = ground arith

-- A miss below the third only counts.
missed_early :
    (a : ℕ) (s : Supervisor)
    → (s.objects a).running ≡ true
    → ltb (s.objects a).probe_fails 2 ≡ true
    → ((probed false a s).objects a
        ≡ record (s.objects a) { probe_fails = suc (s.objects a).probe_fails })
      × ((probed false a s).signals ≡ s.signals)
unfolding probed signal
missed_early a s r l = ground (
  arith,
  r,
  l,
  store_at-same a (record (s.objects a) { probe_fails = suc (s.objects a).probe_fails }) s.objects,
)

missed_third :
    (a : ℕ) (s : Supervisor) {cmd : ℕ}
    → (s.objects a).running ≡ true
    → (s.objects a).probe_fails ≡ 2
    → (s.objects a).cmd ≡ some cmd
    → ((probed false a s).objects a ≡ record (s.objects a) { probe_fails = 3 })
      × ((probed false a s).signals ≡ (sig_kill, cmd) ∷ s.signals)
unfolding probed signal
missed_third a s r f c = ground (
  arith,
  r,
  f,
  c,
  store_at-same a (record (s.objects a) { probe_fails = suc (s.objects a).probe_fails }) s.objects,
)

missed_late : (a : ℕ) (s : Supervisor) → (s.objects a).probe_fails ≡ 3 → probed false a s ≡ s
unfolding probed
missed_late a s f = ground (arith, f)

-- Missed probes of a running process, in a row.
unfoldable pub missed : ℕ → ℕ → Supervisor → Supervisor
missed zero a s = s
missed (suc n) a s = missed n a (probed false a s)

missed_more : (n a : ℕ) (s : Supervisor) → (s.objects a).probe_fails ≡ 3 → missed n a s ≡ s
unfolding missed
missed_more zero a s f = refl
missed_more (suc n) a s f = rw (missed_late a s f) (missed_more n a s f)

-- A process that runs, was answered last and then misses `n` probes in a row: below three misses
-- nothing is sent, and all are counted; from the third on its command has been sent SIGKILL, once, and
-- three are counted.
pub missed_lem :
    (n a : ℕ) (s : Supervisor) {cmd : ℕ}
    → (s.objects a).running ≡ true
    → (s.objects a).probe_fails ≡ 0
    → (s.objects a).cmd ≡ some cmd
    → ((missed n a s).signals ≡ (if ltb n 3 then s.signals else (sig_kill, cmd) ∷ s.signals))
      × (((missed n a s).objects a).probe_fails ≡ (if ltb n 3 then n else 3))
unfolding missed
missed_lem zero a s r f c = (refl, f)
missed_lem (suc zero) a s r f c =
    let (o1, g1) = missed_early a s r (ground (arith, f)) in (g1, ground (arith, o1, f))
missed_lem (suc (suc zero)) a s r f c =
    let s1 = probed false a s in
    let (o1, g1) = missed_early a s r (ground (arith, f)) in
    let (o2, g2) = missed_early a s1 (ground (arith, o1, r)) (ground (arith, o1, f)) in
    (g2 ∙ g1, ground (arith, o2, o1, f))
missed_lem (suc (suc (suc n))) a s {cmd} r f c =
    let s1 = probed false a s in
    let s2 = probed false a s1 in
    let (o1, g1) = missed_early a s r (ground (arith, f)) in
    let (o2, g2) = missed_early a s1 (ground (arith, o1, r)) (ground (arith, o1, f)) in
    let (o3, g3) =
      missed_third a s2 {cmd = cmd} (ground (arith, o2, o1, r)) (ground (arith, o2, o1, f))
        (ground (arith, o2, o1, c)) in
    let late : ltb (suc (suc (suc n))) 3 ≡ false = ground arith in
    rw (missed_more n a (probed false a s2) (ground (arith, o3)), late)
      (g3 ∙ ap (λ gs. (sig_kill, cmd) ∷ gs) (g2 ∙ g1), ground (arith, o3))
