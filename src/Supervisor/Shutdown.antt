-- ===== src/Supervisor/Shutdown.antt =====
-- internal/supervisor/supervisor.go: the restart of a process that exits, and the end of StopAll.
use uncut_core.Base.{
  Bool-cases, Option-cases, Map, lookup, ℕ, zero, suc, ◌+◌, ◌≤◌, ◌≡◌, refl, ap, ◌∙◌, inl, inr, Bool,
  true, false, Option, none, some, List, [], ◌∷◌, arith,
}
use uncut_core.Text.{Text, text_eq}
use uncut_core.Supervisor.{
  ProcessSpec, ManagedProcess, sleeping, Monitor, Signal, sig_term, Supervisor, new_supervisor,
  add_process, start_process, start_each, start_all, second, exited, monitor_at, replace_at, reap,
  wake,
}
use uncut_core.Supervisor.Control.{
  respec_at, respec, signal, restart_signal_at, restart_signal, restart_finish, probed, cancel,
}
use uncut_core.Supervisor.Steps.{
  Step, adds, starts_all, reaps, wakes, respecs, restarts, finishes, probes, cancels, ticks, Steps,
}
use uncut_core.Supervisor.Invariant.{reached-IsCoherent}
use uncut_core.Supervisor.Live.{live, live-remove}

monitor_at-replace :
    (i : ℕ) (m n : Monitor) (ms : List Monitor)
    → monitor_at i ms ≡ some m
    → monitor_at i (replace_at i n ms) ≡ some n
unfolding monitor_at replace_at
monitor_at-replace i m n [] h = cc
monitor_at-replace zero m n (k ∷ ms) h = refl
monitor_at-replace (suc i) m n (k ∷ ms) h = monitor_at-replace i m n ms h

no_backoff-exited :
    (now : ℕ) (mp : ManagedProcess) → mp.backoff ≡ 0 → now + (exited now mp).backoff ≡ now
unfolding exited second
no_backoff-exited now mp h = ground arith

-- In every state that is reached from a new supervisor, the monitor whose command exits before a
-- shutdown is asleep until the very time of the exit: the restart of a crashed process is never
-- delayed, however often it has crashed.
pub restart_not_delayed :
    (now : ℕ) {s : Supervisor} (i : ℕ) (m : Monitor)
    → Steps (new_supervisor now) s
    → monitor_at i s.monitors ≡ some m
    → s.cancelled ≡ false
    → monitor_at i (reap i m s).monitors ≡ some (record m { phase = sleeping s.now })
unfolding reap
restart_not_delayed now {s} i m steps at running =
    let c = reached-IsCoherent now steps in
    rw running (
      monitor_at-replace i m _ s.monitors at
      ∙ ap (λ until. some (record m { phase = sleeping until }))
          (no_backoff-exited s.now (s.objects m.proc) (c.no_backoff m.proc)))

start_cancelled :
    (starts : Bool) (name : Text) (a : ℕ) (s : Supervisor)
    → s.cancelled ≡ true
    → start_process starts name a s ≡ s
unfolding start_process
start_cancelled starts name a s h = elim (Bool-cases (s.objects a).running) [
  | inl e ↦ rw e refl
  | inr e ↦ rw e (rw h refl)
]

start_each_cancelled :
    (starts : Text → Bool) (ps : Map Text ℕ) (s : Supervisor)
    → s.cancelled ≡ true
    → start_each starts ps s ≡ s
unfolding start_each
start_each_cancelled starts [] s h = refl
start_each_cancelled starts ((name, a) ∷ ps) s h =
    ground (arith, start_cancelled (starts name) name a s h, start_each_cancelled starts ps s h)

signal_same :
    (sent : Signal) (cmd : Option ℕ) (s : Supervisor)
    → ((signal sent cmd s).cancelled ≡ s.cancelled) × ((signal sent cmd s).monitors ≡ s.monitors)
unfolding signal
signal_same sent none s = (refl, refl)
signal_same sent (some cmd) s = (refl, refl)

-- No goroutine comes or goes, and the context stays as it is.
abbrev Quiet : Supervisor → Supervisor → Type 0
Quiet s t = (t.cancelled ≡ s.cancelled) × (t.monitors ≡ s.monitors)

respec-Quiet : (spec : ProcessSpec) (s : Supervisor) → Quiet s (respec spec s).1
unfolding respec respec_at
respec-Quiet spec s = elim (Option-cases (lookup spec.name s.processes)) [
  | inl e ↦ rw e (refl, refl)
  | inr (a, e) ↦ rw e (ground arith)
]

restart-Quiet : (name : Text) (s : Supervisor) → Quiet s (restart_signal name s).1
unfolding restart_signal restart_signal_at
restart-Quiet name s = elim (Option-cases (lookup name s.processes)) [
  | inl e ↦ rw e (refl, refl)
  | inr (a, e) ↦ rw e (ground (arith, signal_same sig_term (s.objects a).cmd s))
]

probed-Quiet : (answers : Bool) (a : ℕ) (s : Supervisor) → Quiet s (probed answers a s)
unfolding probed signal
probed-Quiet answers a s = ground arith

-- Once the context is cancelled it stays so, and no step starts a command: those that are alive
-- of any process object only become fewer.
pub cancelled-no_start :
    {s t : Supervisor} (a : ℕ)
    → s.cancelled ≡ true
    → Step s t
    → (t.cancelled ≡ true) × (live a t.monitors ≤ live a s.monitors)
unfolding add_process start_all reap wake restart_finish cancel
cancelled-no_start {s} a h (adds spec) = ground (arith, h)
cancelled-no_start {s} a h (starts_all starts) =
    ground (arith, h, start_each_cancelled starts s.processes s h)
cancelled-no_start {s} a h (reaps i m at w) = ground (arith, h, live-remove a i m s.monitors at)
cancelled-no_start {s} a h (wakes starts i m until at asleep due) =
    ground (arith, h, live-remove a i m s.monitors at)
cancelled-no_start {s} a h (respecs spec) = ground (arith, h, respec-Quiet spec s)
cancelled-no_start {s} a h (restarts name) = ground (arith, h, restart-Quiet name s)
cancelled-no_start {s} a h (finishes starts name b l) =
    ground (arith, h, start_cancelled starts name b s h)
cancelled-no_start {s} a h (probes answers b) = ground (arith, h, probed-Quiet answers b s)
cancelled-no_start {s} a h cancels = ground (arith, h)
cancelled-no_start {s} a h (ticks elapsed) = ground (arith, h)
