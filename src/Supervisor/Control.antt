-- ===== src/Supervisor/Control.antt =====
-- internal/supervisor/supervisor.go: restarts, probes, the status and the shutdown.
use uncut_core.Base.{
  ltb, eqb, if◌then◌else◌, ◌==◌, Result, ok, err, Exec, Map, lookup, ℕ, suc, Bool, true, false, not,
  ◌&&◌, ◌||◌, Option, none, some, List, [], ◌∷◌, ◌++◌,
}
use uncut_core.Text.{Text, codes, text_eq, is_blank}
use uncut_core.Supervisor.{
  ProcessSpec, ManagedProcess, Monitor, Signal, sig_term, sig_kill, Supervisor, store_at,
  start_process, is_waiting,
}

-- The texts of two lists, `slices.Equal`.
abbrev pub same_texts : List Text → List Text → Bool
same_texts [] [] = true
same_texts [] (b ∷ ys) = false
same_texts (a ∷ xs) [] = false
same_texts (a ∷ xs) (b ∷ ys) = a == b && same_texts xs ys

unfoldable pub same_spec : ProcessSpec → ProcessSpec → Bool
same_spec a b =
    a.command == b.command
    && same_texts a.args b.args
    && a.dir == b.dir
    && a.log_path == b.log_path
    && a.probe_addr == b.probe_addr
    && a.probe_sni == b.probe_sni

unfoldable pub respec_at : ProcessSpec → Option ℕ → Supervisor → Bool × Supervisor
unfolding same_spec store_at
respec_at spec none s = (false, s)
respec_at spec (some a) s =
    if same_spec (s.objects a).spec spec
    then (false, s)
    else (true, record s { objects = store_at a (record (s.objects a) { spec = spec }) s.objects })

unfoldable pub respec : ProcessSpec → Supervisor → Bool × Supervisor
unfolding respec_at lookup
respec spec s = respec_at spec (lookup spec.name s.processes) s

pub data SupervisorError : Type 0 where
  not_running : SupervisorError
  not_registered did_not_exit : Text → SupervisorError

unfoldable pub signal : Signal → Option ℕ → Supervisor → Supervisor
signal sent none s = s
signal sent (some cmd) s = record s { signals = (sent, cmd) ∷ s.signals }

-- `RestartProcess` up to the wait: the address that it goes on with.
unfoldable pub restart_signal_at : Text → Option ℕ → Exec Supervisor SupervisorError ℕ
unfolding signal
restart_signal_at name none s = (err (not_registered name), s)
restart_signal_at name (some a) s =
    (ok a, if (s.objects a).running then signal sig_term (s.objects a).cmd s else s)

unfoldable pub restart_signal : Text → Exec Supervisor SupervisorError ℕ
unfolding restart_signal_at lookup
restart_signal name s = restart_signal_at name (lookup name s.processes) s

-- `RestartProcess` after the wait, which ends when the process does or at the deadline.
unfoldable pub restart_finish : Bool → Text → ℕ → Exec Supervisor SupervisorError (Unit {0})
unfolding start_process
restart_finish starts name a s =
    if (s.objects a).running
    then (err (did_not_exit name), s)
    else (ok tt, start_process starts name a s)

-- What the other goroutines do to the supervisor while `RestartProcess` waits, and whether the
-- command starts again.
pub record Waiting : Type 0 where
  pub meanwhile : Text → Supervisor → Supervisor
  pub starts : Text → Bool

abbrev pub restart_waited :
    Waiting
    → Text
    → Result SupervisorError ℕ × Supervisor
    → Result SupervisorError (Unit {0}) × Supervisor
restart_waited w name (err e, s) = (err e, s)
restart_waited w name (ok a, s) = restart_finish (w.starts name) name a (w.meanwhile name s)

-- The whole of `RestartProcess`.
unfoldable pub restart_process : Waiting → Text → Exec Supervisor SupervisorError (Unit {0})
restart_process w name s = restart_waited w name (restart_signal name s)

-- `ReloadSingBox`: the command that gets SIGHUP.
unfoldable pub reload_sing_box : Supervisor → Result SupervisorError ℕ
unfolding lookup
reload_sing_box s = elim (lookup (codes "sing-box") s.processes) [
  | none ↦ err not_running
  | some a ↦
      if not (s.objects a).running
      then err not_running
      else elim (s.objects a).cmd [ none ↦ err not_running | some cmd ↦ ok cmd ]
]

abbrev pub is_started : Option ℕ → Bool
is_started none = false
is_started (some cmd) = true

-- The addresses that one tick of `watchProbes` probes.
unfoldable pub probe_targets : (ℕ → ManagedProcess) → Map Text ℕ → List ℕ
probe_targets objects [] = []
probe_targets objects ((name, a) ∷ rest) =
    let others = probe_targets objects rest in
    if not (is_blank (objects a).spec.probe_addr)
      && (objects a).running
      && is_started (objects a).cmd
    then a ∷ others
    else others

-- The answer of the probe of the object at an address; the third miss kills its command.
unfoldable pub probed : Bool → ℕ → Supervisor → Supervisor
unfolding signal store_at
probed answers a s =
    let mp = s.objects a in
    let missed = record s {
      objects = store_at a (record mp { probe_fails = suc mp.probe_fails }) s.objects;
    } in
    if answers
    then record s { objects = store_at a (record mp { probe_fails = 0 }) s.objects }
    else if mp.running && ltb mp.probe_fails 3
    then (if eqb (suc mp.probe_fails) 3 then signal sig_kill mp.cmd missed else missed)
    else s

unfoldable pub status_from : (ℕ → ManagedProcess) → Map Text ℕ → Map Text Bool
status_from objects [] = []
status_from objects ((name, a) ∷ rest) =
    (name, (objects a).running && ltb (objects a).probe_fails 3) ∷ status_from objects rest

unfoldable pub get_status : Supervisor → Map Text Bool
unfolding status_from
get_status s = status_from s.objects s.processes

unfoldable pub any_running : (ℕ → ManagedProcess) → Map Text ℕ → Bool
any_running objects [] = false
any_running objects ((name, a) ∷ rest) = (objects a).running || any_running objects rest

-- The test of the loop of `StopAll`.
unfoldable pub all_stopped : Supervisor → Bool
unfolding any_running
all_stopped s = not (any_running s.objects s.processes)

-- `s.cancel`, which sends SIGTERM to every live command.
live_commands : List Monitor → List (Signal × ℕ)
live_commands [] = []
live_commands (m ∷ ms) =
    let rest = live_commands ms in if is_waiting m.phase then (sig_term, m.cmd) ∷ rest else rest

unfoldable pub cancel : Supervisor → Supervisor
unfolding live_commands
cancel s = record s { cancelled = true; signals = live_commands s.monitors ++ s.signals }
