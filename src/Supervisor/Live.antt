-- ===== src/Supervisor/Live.antt =====
-- internal/supervisor/supervisor.go: the commands that are alive, and the invariant.
use uncut_core.Base.{
  ltb, leb, eqb, if◌then◌else◌, Bool-cases, All, ◌==◌, Map, insert, ℕ, zero, suc, ◌+◌, ◌≡◌, refl,
  inl, inr, Bool, true, ◌&&◌, some, List, [], ◌∷◌, arith,
}
use uncut_core.Text.{Text, text_eq}
use uncut_core.Supervisor.{Monitor, Supervisor, monitor_at, remove_at, replace_at, is_waiting}

abbrev pub weight : ℕ → Monitor → ℕ
weight a m = if eqb m.proc a && is_waiting m.phase then 1 else 0

-- The commands of the object at an address that have not been reaped.
unfoldable pub live : ℕ → List Monitor → ℕ
live a [] = 0
live a (m ∷ ms) = weight a m + live a ms

abbrev pub as_count : Bool → ℕ
as_count b = if b then 1 else 0

-- All goroutines are of an address that has been given out.
abbrev pub Bounded : ℕ → List Monitor → Type 0
Bounded fresh ms = All (λ m. ltb m.proc fresh ≡ true) ms

abbrev pub MapBounded : ℕ → Map Text ℕ → Type 0
MapBounded fresh ps = All (λ (p : Text × ℕ). ltb p.1 fresh ≡ true) ps

-- A process object is running exactly if one command of it is alive, and never has two; no
-- address is used before it is given out; the backoff is zero and at most three probes are counted.
pub record IsCoherent (s : Supervisor) : Type 0 where
  pub one_live : (a : ℕ) → live a s.monitors ≡ as_count (s.objects a).running
  pub bounded : Bounded s.fresh s.monitors
  pub registered : MapBounded s.fresh s.processes
  pub no_backoff : (a : ℕ) → (s.objects a).backoff ≡ 0
  pub few_fails : (a : ℕ) → leb (s.objects a).probe_fails 3 ≡ true

pub live-replace :
    (a i : ℕ) (m n : Monitor) (ms : List Monitor)
    → monitor_at i ms ≡ some m
    → live a (replace_at i n ms) + weight a m ≡ live a ms + weight a n
unfolding live replace_at monitor_at
live-replace a i m n [] h = cc
live-replace a zero m n (k ∷ ms) h = ground arith
live-replace a (suc i) m n (k ∷ ms) h = ground (arith, live-replace a i m n ms h)

pub live-remove :
    (a i : ℕ) (m : Monitor) (ms : List Monitor)
    → monitor_at i ms ≡ some m
    → live a (remove_at i ms) + weight a m ≡ live a ms
unfolding live remove_at monitor_at
live-remove a i m [] h = cc
live-remove a zero m (k ∷ ms) h = ground arith
live-remove a (suc i) m (k ∷ ms) h = ground (arith, live-remove a i m ms h)

pub live-new : (fresh : ℕ) (ms : List Monitor) → Bounded fresh ms → live fresh ms ≡ 0
unfolding live
live-new fresh [] b = refl
live-new fresh (m ∷ ms) b = ground (arith, live-new fresh ms b.1)

pub Bounded-grow : (fresh : ℕ) (ms : List Monitor) → Bounded fresh ms → Bounded (suc fresh) ms
Bounded-grow fresh [] b = tt
Bounded-grow fresh (m ∷ ms) b = (ground arith, Bounded-grow fresh ms b.1)

pub MapBounded-grow :
    (fresh : ℕ) (ps : Map Text ℕ) → MapBounded fresh ps → MapBounded (suc fresh) ps
MapBounded-grow fresh [] b = tt
MapBounded-grow fresh ((name, a) ∷ ps) b = (ground arith, MapBounded-grow fresh ps b.1)

pub MapBounded-insert :
    (fresh a : ℕ) (name : Text) (ps : Map Text ℕ)
    → ltb a fresh ≡ true
    → MapBounded fresh ps
    → MapBounded fresh (insert name a ps)
unfolding insert
MapBounded-insert fresh a name [] l b = (l, tt)
MapBounded-insert fresh a name ((j, w) ∷ ps) l b = elim (Bool-cases (j == name)) [
  | inl e ↦ rw e (l, b.1)
  | inr e ↦ rw e (b.0, MapBounded-insert fresh a name ps l b.1)
]

pub Bounded-at :
    (fresh i : ℕ) (m : Monitor) (ms : List Monitor)
    → Bounded fresh ms
    → monitor_at i ms ≡ some m
    → ltb m.proc fresh ≡ true
unfolding monitor_at
Bounded-at fresh i m [] b h = cc
Bounded-at fresh zero m (k ∷ ms) b h = ground arith
Bounded-at fresh (suc i) m (k ∷ ms) b h = Bounded-at fresh i m ms b.1 h

pub Bounded-remove :
    (fresh i : ℕ) (ms : List Monitor) → Bounded fresh ms → Bounded fresh (remove_at i ms)
unfolding remove_at
Bounded-remove fresh i [] b = tt
Bounded-remove fresh zero (k ∷ ms) b = b.1
Bounded-remove fresh (suc i) (k ∷ ms) b = (b.0, Bounded-remove fresh i ms b.1)

pub Bounded-replace :
    (fresh i : ℕ) (n : Monitor) (ms : List Monitor)
    → ltb n.proc fresh ≡ true
    → Bounded fresh ms
    → Bounded fresh (replace_at i n ms)
unfolding replace_at
Bounded-replace fresh i n [] l b = tt
Bounded-replace fresh zero n (k ∷ ms) l b = (l, b.1)
Bounded-replace fresh (suc i) n (k ∷ ms) l b = (b.0, Bounded-replace fresh i n ms l b.1)
