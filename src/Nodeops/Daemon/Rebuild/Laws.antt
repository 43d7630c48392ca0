-- ===== src/Nodeops/Daemon/Rebuild/Laws.antt =====
-- internal/nodeops/daemon.go: what a rebuild of the running daemon does to its children.
use uncut_core.Base.{
  contains, Distinct, Result, ok, err, ℕ, ◌≡◌, ◌⊎◌, ◌||◌, some, List, [], ◌∷◌, ◌++◌,
}
use uncut_core.Text.{Text, text_eq}
use uncut_core.Config.{Settings}
use uncut_core.Transport.{RandomPaths}
use uncut_core.Setup.{Options}
use uncut_core.Setup.Load.{TransportCodec, load}
use uncut_core.Setup.Rebuild.{Action, Node, Consumers, rebuild_all}
use uncut_core.Nodeops.Daemon.{respec_all}
use uncut_core.Nodeops.Daemon.Laws.{fields, changed_in, with_fields}
use uncut_core.Nodeops.Daemon.Rebuild.{Machine, DaemonError, not_restarted, live_specs}
use uncut_core.Supervisor.Control.{SupervisorError, Waiting, restart_process}
use uncut_core.Supervisor.{Supervisor}
use uncut_core.Store.{Store}

-- These children restart in this order, and the supervisor goes from the first state to the second.
pub data Restarted (w : Waiting) : List Text → Supervisor → Supervisor → Type 0 where
  no_more : {sup : Supervisor} → Restarted w [] sup sup
  restarted :
      {name : Text} {names : List Text} {sup sup' : Supervisor}
      → (restart_process w name sup).0 ≡ ok tt
      → Restarted w names (restart_process w name sup).1 sup'
      → Restarted w (name ∷ names) sup sup'

-- The children before that one restart, and it does not.
pub record StopsAt (w : Waiting) (names : List Text) (sup : Supervisor) (e : SupervisorError)
    (end : Supervisor) : Type 0 where
  pub before : List Text
  pub after : List Text
  pub name : Text
  pub middle : Supervisor
  pub parts : names ≡ before ++ name ∷ after
  pub first : Restarted w before sup middle
  pub stop : restart_process w name middle ≡ (err e, end)

-- All of the children restart, or those before the one that fails.
abbrev pub RestartCases :
    Waiting → List Text → Supervisor → Result SupervisorError (Unit {0}) × Supervisor → Type 0
RestartCases w names sup r =
    ((r.0 ≡ ok tt) × Restarted w names sup r.1)
    ⊎ ((e : SupervisorError) × (r.0 ≡ err e) × StopsAt w names sup e r.1)

abbrev error_or : SupervisorError → Result SupervisorError (Unit {0}) → SupervisorError
error_or d (ok u) = d
error_or d (err e) = e

module _ (k : Consumers) (codec : TransportCodec) (opts : Options) (w : Waiting)
    (paths paths' : RandomPaths) (asked : List Text) (m : Machine) where
  -- The node after the pass.
  abbrev pub passed_node : Node
  passed_node = (rebuild_all k codec opts paths (some m.sup) m.node).1

  -- The rebuild fails before a specification is replaced.
  abbrev pub Refused : Result DaemonError (List Action) × Machine → Type 0
  Refused r = (e : DaemonError) × (r.0 ≡ err e) × (r.1.sup ≡ m.sup)

  -- The children to restart, under the settings as they load after the pass.
  abbrev pub ToRestart : Settings → List Text → Type 0
  ToRestart settings names =
      ((name : Text)
        → contains names name ≡ (
            contains asked name
            || changed_in (live_specs opts passed_node.disk settings) m.sup name))
      × Distinct names

  -- The supervisor once the specifications are replaced.
  abbrev pub replaced : Settings → Supervisor
  replaced settings = (respec_all (live_specs opts passed_node.disk settings) asked m.sup).1

  -- Each object then has the fields of the specification that names its process, and the others
  -- have theirs.
  abbrev pub HasSpecs : Settings → Type 0
  HasSpecs settings =
      (b : ℕ)
      → fields ((replaced settings).objects b).spec
        ≡ with_fields (live_specs opts passed_node.disk settings) m.sup.processes
            (λ c. fields (m.sup.objects c).spec) b

  abbrev pub Restarts : Settings → List Text → Result DaemonError (List Action) × Machine → Type 0
  Restarts settings names r =
      ((actions : List Action) × (r.0 ≡ ok actions) × Restarted w names (replaced settings) r.1.sup)
      ⊎ ((e : SupervisorError) × (r.0 ≡ err (not_restarted e))
          × StopsAt w names (replaced settings) e r.1.sup)

  abbrev pub RebuildCases : Result DaemonError (List Action) × Machine → Type 0
  RebuildCases r =
      ((settings : Settings) × (names : List Text) × ((load codec opts paths' passed_node.store).0
          ≡ ok settings)
        × ToRestart settings names
        × HasSpecs settings
        × Restarts settings names r)
      ⊎ Refused r
