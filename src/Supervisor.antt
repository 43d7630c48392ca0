-- ===== src/Supervisor.antt =====
-- internal/supervisor/supervisor.go: the managed child processes.
--
-- A `*ManagedProcess` is an address: the map and the monitor goroutines share the object. Each
-- function below is what runs under one hold of the mutex; times are in nanoseconds.
pub mod Steps
pub mod Kept
pub mod Live
pub mod Control
pub mod Invariant
pub mod Shutdown
pub mod Probes
use uncut_core.Base.{
  ltb, eqb, if◌then◌else◌, Map, insert, ℕ, zero, suc, ◌+◌, ◌-◌, ◌*◌, Bool, true, false, not, ◌||◌,
  Option, none, some, List, [], ◌∷◌,
}
use uncut_core.Text.{Text, text_eq}

pub record ProcessSpec : Type 0 where
  pub name : Text
  pub command : Text
  pub args : List Text
  pub dir : Text
  pub log_path : Text
  pub probe_addr : Text
  pub probe_sni : Text

-- `cmd` is the number of the last command that started.
pub record ManagedProcess : Type 0 where
  pub spec : ProcessSpec
  pub cmd : Option ℕ
  pub running : Bool
  pub started : ℕ
  pub backoff : ℕ
  pub probe_fails : ℕ

-- Where a monitor goroutine is: in `cmd.Wait`, or in the `select` until the time of its restart.
pub data Phase : Type 0 where
  waiting : Phase
  sleeping : ℕ → Phase

pub record Monitor : Type 0 where
  pub name : Text
  pub proc : ℕ
  pub cmd : ℕ
  pub phase : Phase

-- What a command is sent: SIGTERM, or SIGKILL by `Process.Kill`.
pub data Signal : Type 0 where
  sig_term sig_kill : Signal

-- `fresh` is the next address and the next command; `signals` are those sent, each with its command,
-- the last one first.
pub record Supervisor : Type 0 where
  pub objects : ℕ → ManagedProcess
  pub processes : Map Text ℕ
  pub monitors : List Monitor
  pub signals : List (Signal × ℕ)
  pub cancelled : Bool
  pub now : ℕ
  pub fresh : ℕ

unfoldable pub new_process : ProcessSpec → ManagedProcess
new_process spec = record {
  spec = spec;
  cmd = none;
  running = false;
  started = 0;
  backoff = 0;
  probe_fails = 0;
}

abbrev no_spec : ProcessSpec
no_spec = record {
  name = [];
  command = [];
  args = [];
  dir = [];
  log_path = [];
  probe_addr = [];
  probe_sni = [];
}

unfoldable pub new_supervisor : ℕ → Supervisor
unfolding new_process
new_supervisor now = record {
  objects = λ _. new_process no_spec;
  processes = [];
  monitors = [];
  signals = [];
  cancelled = false;
  now = now;
  fresh = 0;
}

-- A write through the pointer.
unfoldable pub store_at : ℕ → ManagedProcess → (ℕ → ManagedProcess) → ℕ → ManagedProcess
store_at a mp objects b = if eqb b a then mp else objects b

unfoldable pub add_process : ProcessSpec → Supervisor → Supervisor
unfolding store_at new_process insert
add_process spec s = record s {
  objects = store_at s.fresh (new_process spec) s.objects;
  processes = insert spec.name s.fresh s.processes;
  fresh = suc s.fresh;
}

-- `starts` says whether `cmd.Start` succeeds.
unfoldable pub start_process : Bool → Text → ℕ → Supervisor → Supervisor
unfolding store_at
start_process starts name a s =
    if (s.objects a).running || s.cancelled || not starts then s else record s {
      objects =
          store_at a
            (record (s.objects a) {
              cmd = some s.fresh;
              running = true;
              probe_fails = 0;
              started = s.now;
            })
            s.objects;
      monitors = record { name = name; proc = a; cmd = s.fresh; phase = waiting } ∷ s.monitors;
      fresh = suc s.fresh;
    }

-- The loop over the map, in the order in which the runtime ranges over it.
unfoldable pub start_each : (Text → Bool) → Map Text ℕ → Supervisor → Supervisor
unfolding start_process
start_each starts [] s = s
start_each starts ((name, a) ∷ rest) s =
    start_each starts rest
      (if (s.objects a).running then s else start_process (starts name) name a s)

unfoldable pub start_all : (Text → Bool) → Supervisor → Supervisor
unfolding start_each
start_all starts s = start_each starts s.processes s

unfoldable pub second : ℕ
second = 1000000000

-- The lines of the monitor between `Wait` and the wait for the restart.
unfoldable pub exited : ℕ → ManagedProcess → ManagedProcess
unfolding second
exited now mp =
    let base = if ltb (30 * second) (now - mp.started) then 0 else mp.backoff in
    let doubled = base * 2 in
    record mp {
      running = false;
      backoff = if ltb (30 * second) doubled then 30 * second else doubled;
    }

unfoldable pub monitor_at : ℕ → List Monitor → Option Monitor
monitor_at i [] = none
monitor_at zero (m ∷ ms) = some m
monitor_at (suc i) (m ∷ ms) = monitor_at i ms

unfoldable pub remove_at : ℕ → List Monitor → List Monitor
remove_at i [] = []
remove_at zero (m ∷ ms) = ms
remove_at (suc i) (m ∷ ms) = m ∷ remove_at i ms

unfoldable pub replace_at : ℕ → Monitor → List Monitor → List Monitor
replace_at i n [] = []
replace_at zero n (m ∷ ms) = n ∷ ms
replace_at (suc i) n (m ∷ ms) = m ∷ replace_at i n ms

abbrev pub is_waiting : Phase → Bool
is_waiting waiting = true
is_waiting (sleeping until) = false

-- The `i`-th goroutine, whose command has exited: `m` is that goroutine.
unfoldable pub reap : ℕ → Monitor → Supervisor → Supervisor
unfolding exited store_at remove_at replace_at
reap i m s =
    let mp = exited s.now (s.objects m.proc) in
    record s {
      objects = store_at m.proc mp s.objects;
      monitors =
          if s.cancelled
          then remove_at i s.monitors
          else replace_at i (record m { phase = sleeping (s.now + mp.backoff) }) s.monitors;
    }

-- The goroutine goes on after the wait, or because the context is done.
unfoldable pub wake : Bool → ℕ → Monitor → Supervisor → Supervisor
unfolding start_process remove_at
wake starts i m s =
    let ended = record s { monitors = remove_at i s.monitors } in
    if s.cancelled then ended else start_process starts m.name m.proc ended
