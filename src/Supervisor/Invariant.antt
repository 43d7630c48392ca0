-- ===== src/Supervisor/Invariant.antt =====
-- internal/supervisor/supervisor.go: what holds in every state that the goroutines reach.
use uncut_core.Base.{ℕ, refl}
use uncut_core.Supervisor.{Supervisor, new_process, new_supervisor, start_all}
use uncut_core.Supervisor.Control.{cancel}
use uncut_core.Supervisor.Steps.{
  Step, adds, starts_all, reaps, wakes, respecs, restarts, finishes, probes, cancels, ticks, Steps,
  done, more,
}
use uncut_core.Supervisor.Live.{live, IsCoherent}
use uncut_core.Supervisor.Kept.{
  reap-IsCoherent, probed-IsCoherent, wake-IsCoherent, start_each-IsCoherent, add-IsCoherent,
  respec-IsCoherent, restart-IsCoherent, finish-IsCoherent,
}

-- Every step, in whatever order the goroutines take the mutex, keeps the invariant.
pub Step-IsCoherent : {s t : Supervisor} → Step s t → IsCoherent s → IsCoherent t
unfolding start_all cancel
Step-IsCoherent {s} (adds spec) c = add-IsCoherent spec s c
Step-IsCoherent {s} (starts_all starts) c =
    start_each-IsCoherent starts s.processes s c.registered c
Step-IsCoherent {s} (reaps i m at w) c = reap-IsCoherent i m s at w c
Step-IsCoherent {s} (wakes starts i m until at asleep due) c =
    wake-IsCoherent starts i m until s at asleep c
Step-IsCoherent {s} (respecs spec) c = respec-IsCoherent spec s c
Step-IsCoherent {s} (restarts name) c = restart-IsCoherent name s c
Step-IsCoherent {s} (finishes starts name a l) c = finish-IsCoherent starts name a s l c
Step-IsCoherent {s} (probes answers a) c = probed-IsCoherent answers a s c
Step-IsCoherent {s} cancels c = record {
  one_live = c.one_live;
  bounded = c.bounded;
  registered = c.registered;
  no_backoff = c.no_backoff;
  few_fails = c.few_fails;
}
Step-IsCoherent {s} (ticks elapsed) c = record {
  one_live = c.one_live;
  bounded = c.bounded;
  registered = c.registered;
  no_backoff = c.no_backoff;
  few_fails = c.few_fails;
}

new-IsCoherent : (now : ℕ) → IsCoherent (new_supervisor now)
unfolding new_supervisor new_process live
new-IsCoherent now = record {
  one_live = λ a. refl;
  bounded = tt;
  registered = tt;
  no_backoff = λ a. refl;
  few_fails = λ a. refl;
}

-- In every state that is reached from a new supervisor, each process object is running exactly if
-- one of its commands is alive, and it never has two; the backoff of every object is zero; and no
-- more than three failed probes are counted.
pub reached-IsCoherent : (now : ℕ) {t : Supervisor} → Steps (new_supervisor now) t → IsCoherent t
reached-IsCoherent now done = new-IsCoherent now
reached-IsCoherent now (more t u steps step) = Step-IsCoherent step (reached-IsCoherent now steps)
