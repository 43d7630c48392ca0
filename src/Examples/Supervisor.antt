-- ===== src/Examples/Supervisor.antt =====
-- The supervisor at concrete inputs.
use uncut_core.Base.{insert, ◌≤◌, ◌≡◌, refl, Bool, true, false, some, [], ◌∷◌}
use uncut_core.Text.{Text, codes, text_eq}
use uncut_core.Supervisor.{
  ProcessSpec, waiting, sleeping, Monitor, sig_kill, Supervisor, new_process, new_supervisor,
  store_at, add_process, start_process, start_each, start_all, monitor_at, reap,
}
use uncut_core.Supervisor.Control.{cancel}
use uncut_core.Supervisor.Steps.{adds, starts_all, Steps, done, more}
use uncut_core.Supervisor.Invariant.{reached-IsCoherent}
use uncut_core.Supervisor.Live.{live, IsCoherent}
use uncut_core.Supervisor.Probes.{missed, missed_lem}
use uncut_core.Supervisor.Shutdown.{restart_not_delayed, cancelled-no_start}

abbrev a_spec : ProcessSpec
a_spec = record {
  name = codes "nginx";
  command = codes "nginx";
  args = [];
  dir = [];
  log_path = [];
  probe_addr = [];
  probe_sni = [];
}

abbrev yes_all : Text → Bool
yes_all name = true

abbrev first : Supervisor
first = new_supervisor 5

abbrev second_state : Supervisor
second_state = add_process a_spec first

abbrev third : Supervisor
third = start_all yes_all second_state

-- One process that has been started.
up : Steps first third
up = more second_state third (more first second_state done (adds a_spec)) (starts_all yes_all)

reached-IsCoherent_example : IsCoherent third
reached-IsCoherent_example = reached-IsCoherent 5 up

abbrev a_monitor : Monitor
a_monitor = record { name = codes "nginx"; proc = 0; cmd = 1; phase = waiting }

at_zero : monitor_at 0 third.monitors ≡ some a_monitor
unfolding monitor_at start_all start_each start_process add_process new_supervisor new_process
    store_at insert
at_zero = refl

not_cancelled : third.cancelled ≡ false
unfolding start_all start_each start_process add_process new_supervisor new_process store_at insert
not_cancelled = refl

restart_not_delayed_example :
    monitor_at 0 (reap 0 a_monitor third).monitors
    ≡ some (record a_monitor { phase = sleeping third.now })
restart_not_delayed_example = restart_not_delayed 5 0 a_monitor up at_zero not_cancelled

abbrev stopping : Supervisor
stopping = cancel third

is_cancelled : stopping.cancelled ≡ true
unfolding cancel
is_cancelled = refl

cancelled-no_start_example :
    ((start_all yes_all stopping).cancelled ≡ true)
    × (live 0 (start_all yes_all stopping).monitors ≤ live 0 stopping.monitors)
cancelled-no_start_example = cancelled-no_start 0 is_cancelled (starts_all yes_all)

is_running : (third.objects 0).running ≡ true
unfolding start_all start_each start_process add_process new_supervisor new_process store_at insert
is_running = refl

no_miss : (third.objects 0).probe_fails ≡ 0
unfolding start_all start_each start_process add_process new_supervisor new_process store_at insert
no_miss = refl

first_command : (third.objects 0).cmd ≡ some 1
unfolding start_all start_each start_process add_process new_supervisor new_process store_at insert
first_command = refl

missed_lem_example :
    ((missed 4 0 third).signals ≡ (sig_kill, 1) ∷ third.signals)
    × (((missed 4 0 third).objects 0).probe_fails ≡ 3)
missed_lem_example = missed_lem 4 0 third {cmd = 1} is_running no_miss first_command

abbrev new_args : ProcessSpec
new_args = record a_spec { args = codes "-q" ∷ [] }
