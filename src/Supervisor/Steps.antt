-- ===== src/Supervisor/Steps.antt =====
-- internal/supervisor/supervisor.go: the goroutines as steps, one for each hold of the mutex.
use uncut_core.Base.{ltb, leb, ℕ, ◌+◌, ◌≡◌, Bool, true, ◌||◌, some}
use uncut_core.Text.{Text}
use uncut_core.Supervisor.{
  ProcessSpec, sleeping, Monitor, Supervisor, add_process, start_all, monitor_at, is_waiting, reap,
  wake,
}
use uncut_core.Supervisor.Control.{respec, restart_signal, restart_finish, probed, cancel}

pub data Step (s : Supervisor) : Supervisor → Type 0 where
  adds : (spec : ProcessSpec) → Step s (add_process spec s)
  starts_all : (starts : Text → Bool) → Step s (start_all starts s)
  reaps :
      (i : ℕ) (m : Monitor)
      → monitor_at i s.monitors ≡ some m
      → is_waiting m.phase ≡ true
      → Step s (reap i m s)
  wakes :
      (starts : Bool) (i : ℕ) (m : Monitor) (until : ℕ)
      → monitor_at i s.monitors ≡ some m
      → m.phase ≡ sleeping until
      → leb until s.now || s.cancelled ≡ true
      → Step s (wake starts i m s)
  respecs : (spec : ProcessSpec) → Step s (respec spec s).1
  restarts : (name : Text) → Step s (restart_signal name s).1
  finishes :
      (starts : Bool) (name : Text) (a : ℕ)
      → ltb a s.fresh ≡ true
      → Step s (restart_finish starts name a s).1
  probes : (answers : Bool) (a : ℕ) → Step s (probed answers a s)
  cancels : Step s (cancel s)
  ticks : (elapsed : ℕ) → Step s (record s { now = s.now + elapsed })

-- Any number of steps.
pub data Steps (s : Supervisor) : Supervisor → Type 0 where
  done : Steps s s
  more : (t u : Supervisor) → Steps s t → Step t u → Steps s u
