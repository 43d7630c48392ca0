-- ===== src/Supervisor/Kept.antt =====
-- internal/supervisor/supervisor.go: each function keeps the invariant.
use uncut_core.Base.{
  ltb, if◌then◌else◌, Bool-cases, Option-cases, Result, ok, err, Map, lookup, ℕ, suc, ◌+◌, ◌≡◌,
  refl, inl, inr, Bool, true, false, not, ◌||◌, Option, none, some, [], ◌∷◌, arith,
}
use uncut_core.Text.{Text, text_eq}
use uncut_core.Supervisor.{
  ProcessSpec, sleeping, Monitor, Signal, sig_term, Supervisor, new_process, store_at, add_process,
  start_process, start_each, second, exited, monitor_at, remove_at, is_waiting, reap, wake,
}
use uncut_core.Supervisor.Control.{
  same_spec, respec_at, respec, SupervisorError, did_not_exit, signal, restart_signal_at,
  restart_signal, restart_finish, probed,
}
use uncut_core.Supervisor.Live.{
  live, MapBounded, IsCoherent, live-replace, live-remove, live-new, Bounded-grow, MapBounded-grow,
  MapBounded-insert, Bounded-at, Bounded-remove, Bounded-replace,
}

start-IsCoherent :
    (starts : Bool) (name : Text) (a : ℕ) (s : Supervisor)
    → ltb a s.fresh ≡ true
    → IsCoherent s
    → IsCoherent (start_process starts name a s)
unfolding start_process store_at live
start-IsCoherent starts name a s l c =
    elim (Bool-cases ((s.objects a).running || s.cancelled || not starts)) [
      | inl e ↦ rw e c
      | inr e ↦ rw e (record {
        one_live = λ b. ground (arith, e, c.one_live b);
        bounded = (ground arith, Bounded-grow s.fresh s.monitors c.bounded);
        registered = MapBounded-grow s.fresh s.processes c.registered;
        no_backoff = λ b. ground (arith, c.no_backoff b, c.no_backoff a);
        few_fails = λ b. ground (arith, c.few_fails b);
      })
    ]

pub reap-IsCoherent :
    (i : ℕ) (m : Monitor) (s : Supervisor)
    → monitor_at i s.monitors ≡ some m
    → is_waiting m.phase ≡ true
    → IsCoherent s
    → IsCoherent (reap i m s)
unfolding reap exited store_at second
reap-IsCoherent i m s at w c = elim (Bool-cases s.cancelled) [
  | inl e ↦ record {
    one_live =
        λ a. ground (arith, e, live-remove a i m s.monitors at, c.one_live a, c.one_live m.proc);
    bounded = rw e (Bounded-remove s.fresh i s.monitors c.bounded);
    registered = c.registered;
    no_backoff = λ a. ground (arith, c.no_backoff a, c.no_backoff m.proc);
    few_fails = λ a. ground (arith, c.few_fails a);
  }
  | inr e ↦ record {
    one_live = λ a. ground (
      arith,
      e,
      live-replace a i m
          (record m { phase = sleeping (s.now + (exited s.now (s.objects m.proc)).backoff) })
          s.monitors at,
      c.one_live a,
      c.one_live m.proc,
    );
    bounded = rw e (
        Bounded-replace s.fresh i
          (record m { phase = sleeping (s.now + (exited s.now (s.objects m.proc)).backoff) })
          s.monitors (Bounded-at s.fresh i m s.monitors c.bounded at) c.bounded);
    registered = c.registered;
    no_backoff = λ a. ground (arith, c.no_backoff a, c.no_backoff m.proc);
    few_fails = λ a. ground (arith, c.few_fails a, c.few_fails m.proc);
  }
]

pub probed-IsCoherent :
    (answers : Bool) (a : ℕ) (s : Supervisor) → IsCoherent s → IsCoherent (probed answers a s)
unfolding probed signal store_at
probed-IsCoherent answers a s c = ground (arith, c)

if-IsCoherent :
    (b : Bool) {s t : Supervisor}
    → IsCoherent s
    → (b ≡ false → IsCoherent t)
    → IsCoherent (if b then s else t)
if-IsCoherent true cs ct = cs
if-IsCoherent false cs ct = ct refl

pub wake-IsCoherent :
    (starts : Bool) (i : ℕ) (m : Monitor) (until : ℕ) (s : Supervisor)
    → monitor_at i s.monitors ≡ some m
    → m.phase ≡ sleeping until
    → IsCoherent s
    → IsCoherent (wake starts i m s)
unfolding wake
wake-IsCoherent starts i m until s at asleep c =
    let ended : IsCoherent (record s { monitors = remove_at i s.monitors }) = record {
      one_live = λ a. ground (arith, asleep, live-remove a i m s.monitors at, c.one_live a);
      bounded = Bounded-remove s.fresh i s.monitors c.bounded;
      registered = c.registered;
      no_backoff = c.no_backoff;
      few_fails = c.few_fails;
    } in
    if-IsCoherent s.cancelled ended (λ _.
      start-IsCoherent starts m.name m.proc _ (Bounded-at s.fresh i m s.monitors c.bounded at)
        ended)

-- An address that has been given out stays so.
start-fresh :
    (starts : Bool) (name : Text) (a b : ℕ) (s : Supervisor)
    → ltb b s.fresh ≡ true
    → ltb b (start_process starts name a s).fresh ≡ true
unfolding start_process
start-fresh starts name a b s l = ground arith

start-MapBounded :
    (starts : Bool) (name : Text) (a : ℕ) (s : Supervisor) (ps : Map Text ℕ)
    → MapBounded s.fresh ps
    → MapBounded (start_process starts name a s).fresh ps
start-MapBounded starts name a s [] b = tt
start-MapBounded starts name a s ((j, w) ∷ ps) b =
    (start-fresh starts name a w s b.0, start-MapBounded starts name a s ps b.1)

if-MapBounded :
    (b : Bool) (s t : Supervisor) (ps : Map Text ℕ)
    → MapBounded s.fresh ps
    → MapBounded t.fresh ps
    → MapBounded (if b then s else t).fresh ps
if-MapBounded true s t ps bs bt = bs
if-MapBounded false s t ps bs bt = bt

pub start_each-IsCoherent :
    (starts : Text → Bool) (ps : Map Text ℕ) (s : Supervisor)
    → MapBounded s.fresh ps
    → IsCoherent s
    → IsCoherent (start_each starts ps s)
unfolding start_each
start_each-IsCoherent starts [] s b c = c
start_each-IsCoherent starts ((name, a) ∷ ps) s b c =
    start_each-IsCoherent starts ps _
      (if-MapBounded (s.objects a).running s _ ps b.1
        (start-MapBounded (starts name) name a s ps b.1))
      (if-IsCoherent (s.objects a).running c (λ _. start-IsCoherent (starts name) name a s b.0 c))

pub add-IsCoherent :
    (spec : ProcessSpec) (s : Supervisor) → IsCoherent s → IsCoherent (add_process spec s)
unfolding add_process new_process store_at
add-IsCoherent spec s c = record {
  one_live = λ a. ground (arith, c.one_live a, live-new s.fresh s.monitors c.bounded);
  bounded = Bounded-grow s.fresh s.monitors c.bounded;
  registered =
      MapBounded-insert (suc s.fresh) s.fresh spec.name s.processes (ground arith)
        (MapBounded-grow s.fresh s.processes c.registered);
  no_backoff = λ a. ground (arith, c.no_backoff a);
  few_fails = λ a. ground (arith, c.few_fails a);
}

pub respec-IsCoherent :
    (spec : ProcessSpec) (s : Supervisor) → IsCoherent s → IsCoherent (respec spec s).1
unfolding respec respec_at store_at
respec-IsCoherent spec s c = elim (Option-cases (lookup spec.name s.processes)) [
  | inl e ↦ rw e c
  | inr (a, e) ↦ rw e (elim (Bool-cases (same_spec (s.objects a).spec spec)) [
    | inl q ↦ rw q c
    | inr q ↦ rw q (record {
      one_live = λ b. ground (arith, c.one_live b);
      bounded = c.bounded;
      registered = c.registered;
      no_backoff = λ b. ground (arith, c.no_backoff b);
      few_fails = λ b. ground (arith, c.few_fails b);
    })
  ])
]

signal-IsCoherent :
    (sent : Signal) (cmd : Option ℕ) (s : Supervisor)
    → IsCoherent s
    → IsCoherent (signal sent cmd s)
unfolding signal
signal-IsCoherent sent none s c = c
signal-IsCoherent sent (some cmd) s c = record {
  one_live = c.one_live;
  bounded = c.bounded;
  registered = c.registered;
  no_backoff = c.no_backoff;
  few_fails = c.few_fails;
}

pub restart-IsCoherent :
    (name : Text) (s : Supervisor) → IsCoherent s → IsCoherent (restart_signal name s).1
unfolding restart_signal restart_signal_at
restart-IsCoherent name s c = elim (Option-cases (lookup name s.processes)) [
  | inl e ↦ rw e c
  | inr (a, e) ↦ rw e (
      if-IsCoherent (s.objects a).running (signal-IsCoherent sig_term (s.objects a).cmd s c)
        (λ _. c))
]

pub finish-IsCoherent :
    (starts : Bool) (name : Text) (a : ℕ) (s : Supervisor)
    → ltb a s.fresh ≡ true
    → IsCoherent s
    → IsCoherent (restart_finish starts name a s).1
unfolding restart_finish
finish-IsCoherent starts name a s l c =
    finish (s.objects a).running (start-IsCoherent starts name a s l c)
  where
    finish :
        (b : Bool)
        → IsCoherent (start_process starts name a s)
        → IsCoherent
            (if◌then◌else◌ {A = Result SupervisorError (Unit {0}) × Supervisor} b
              (err (did_not_exit name), s)
              (ok tt, start_process starts name a s)).1
    finish true c' = c
    finish false c' = c'
