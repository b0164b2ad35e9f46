-- ===== src/Threadpool/Safety.antt =====
-- What clients and workers of a pool may rely on, in every state that any order of steps leads to.
use epoll_net.Base.{
  ℕ, ◌≤◌, ◌<◌, ◌≡◌, refl, ap, subst, true, false, inl, inr, none, some, List, [], ◌∷◌, ◌++◌,
  if◌then◌else◌, arith, length, ltb, Bool-cases,
}
use epoll_net.Threadpool.{
  Task, Shared, Pc, locking, testing, sleeping, removing, storing, waiting, woken, popping,
  unlocking, pushing, leaving, signalling, away, advance, acquire, test, take_task, is_waiting,
  Woke, one, nobody, System, Step, move, signal, wake, call, Reach, initial,
}
use epoll_net.Threads.{At, weigh, find}
use epoll_net.Threadpool.Snapshots.{holds, empty_handed, coming}
use epoll_net.Threadpool.Steps.{owners, owners-le}
use epoll_net.Threadpool.Invariant.{Reach-Inv}

-- A step of the program, in place of a wakening without a signal or a new call.
abbrev pub IsRun : {s t : System} → Step s t → Type 0
IsRun (move at e) = Unit {0}
IsRun (signal at w) = Unit {0}
IsRun (wake at) = ⊥
IsRun (call at) = ⊥

Runs : System → Type 0
Runs s = (t : System) × (step : Step s t) × IsRun step

go :
    (s : System) (p : Pc) (e : (q : Pc) × (t : Shared) × (advance p s.shared ≡ some (q, t)))
    → ((q : Pc) → (qs : List Pc) × At s.threads p q qs)
    → Runs s
unfolding Runs
go s p (q, t, e) at = (_, move (at q).1 e, tt)

test_goes : (ts : List Task) (s : Shared) → (q : Pc) × (t : Shared) × (test ts s ≡ some (q, t))
unfolding test
test_goes [] s = (_, _, refl)
test_goes (t ∷ ts) s = (_, _, refl)

take_task_goes :
    (ts : List Task) (s : Shared) → (q : Pc) × (t : Shared) × (take_task ts s ≡ some (q, t))
unfolding take_task
take_task_goes [] s = (_, _, refl)
take_task_goes (t ∷ ts) s = (_, _, refl)

-- A thread that has the mutex never waits.
holder_goes :
    (p : Pc) (s : Shared) → 0 < holds p → (q : Pc) × (t : Shared) × (advance p s ≡ some (q, t))
unfolding advance
holder_goes testing s h = test_goes s.tasks s
holder_goes sleeping s h = (_, _, refl)
holder_goes popping s h = take_task_goes s.tasks s
holder_goes (removing t ts) s h = (_, _, refl)
holder_goes (storing t ts) s h = (_, _, refl)
holder_goes (unlocking none) s h = (_, _, refl)
holder_goes (unlocking (some t)) s h = (_, _, refl)
holder_goes (pushing t) s h = (_, _, refl)
holder_goes leaving s h = (_, _, refl)
holder_goes _ s h = absurd (omega arith)

acquire_goes :
    (q : Pc) (s : Shared) → s.locked ≡ false → (r : Pc) × (t : Shared) × (acquire q s ≡ some (r, t))
unfolding acquire
acquire_goes q s free = (
  q,
  record s { locked = true },
  ap (λ b. if b then none else some (q, record s { locked = true })) free,
)

is_waiting-eq : (p : Pc) → 0 < is_waiting p → p ≡ waiting
is_waiting-eq waiting h = refl
is_waiting-eq _ h = absurd (omega arith)

wakes : (ps : List Pc) → (qs : List Pc) × Woke ps qs
wakes ps = elim (Bool-cases (ltb 0 (weigh is_waiting ps))) [
  | inl some_wait ↦
      let (p, sleeps, at) = find is_waiting ps (ground arith) in
      let at' = subst (λ r. (q : Pc) → (qs : List Pc) × At ps r q qs) (is_waiting-eq p sleeps) at in
      ((at' woken).0, one (at' woken).1)
  | inr none_wait ↦ (ps, nobody (ground arith))
]

-- The mutex is free, or a thread that has it goes on.
locker_goes :
    (s : System) (p : Pc)
    → ((q : Pc) → (qs : List Pc) × At s.threads p q qs)
    → weigh holds s.threads ≡ owners s.shared.locked
    → ((t : Shared) → t.locked ≡ false → (r : Pc) × (u : Shared) × (advance p t ≡ some (r, u)))
    → Runs s
locker_goes s p at one_holds enter = elim (Bool-cases s.shared.locked) [
  | inl held ↦
      let (r, has, at') = find holds s.threads (ground (arith, one_holds)) in
      go s r (holder_goes r s.shared has) at'
  | inr free ↦ go s p (enter s.shared free) at
]

coming_goes :
    (s : System) (p : Pc)
    → 0 < coming p
    → ((q : Pc) → (qs : List Pc) × At s.threads p q qs)
    → weigh holds s.threads ≡ owners s.shared.locked
    → Runs s
unfolding advance Runs
coming_goes s locking h at one_holds =
    locker_goes s locking at one_holds (λ t free. acquire_goes testing t free)
coming_goes s woken h at one_holds =
    locker_goes s woken at one_holds (λ t free. acquire_goes testing t free)
coming_goes s testing h at one_holds = go s testing (holder_goes testing s.shared (omega arith)) at
coming_goes s popping h at one_holds = go s popping (holder_goes popping s.shared (omega arith)) at
coming_goes s (removing t ts) h at one_holds =
    go s (removing t ts) (holder_goes (removing t ts) s.shared (omega arith)) at
coming_goes s leaving h at one_holds = go s leaving (holder_goes leaving s.shared (omega arith)) at
coming_goes s signalling h at one_holds =
    let (ps, at') = at away in let (qs, woke) = wakes ps in (_, signal at' woke, tt)
coming_goes s _ h at one_holds = absurd (omega arith)

module _ (workers clients : ℕ) {s : System} (reach : Reach (initial workers clients) s) where
  -- One thread at most is between `lock` and `unlock`, and no worker ever gets NULL from `pop`, so
  -- that none stops.
  pub one_holder : (weigh holds s.threads ≤ 1) × (weigh empty_handed s.threads ≡ 0)
  one_holder =
      let inv = Reach-Inv workers clients reach in
      (omega (arith, inv.exclusive, owners-le s.shared.locked), inv.served)

  -- In any order of the threads' steps from the start, the tasks that workers took and those still
  -- queued are, in this order, the tasks that were added: each is taken once, and none overtakes another.
  pub taken_in_order : s.shared.taken ++ s.shared.tasks ≡ s.shared.added
  taken_in_order = (Reach-Inv workers clients reach).in_order

  -- In any order of the threads' steps from the start, no wakeup is lost: while a worker sleeps on the
  -- condition, at least as many threads are on their way to the queue, or about to signal, as there are
  -- tasks in it.
  pub no_lost_wakeup :
      0 < weigh is_waiting s.threads → length s.shared.tasks ≤ weigh coming s.threads
  no_lost_wakeup = (Reach-Inv workers clients reach).attended

  -- While a task is queued and a worker sleeps, some thread can take a step of the program.
  pub no_deadlock :
      0 < length s.shared.tasks
      → 0 < weigh is_waiting s.threads
      → (t : System) × (step : Step s t) × IsRun step
  unfolding Runs
  no_deadlock queued sleeps =
      let inv = Reach-Inv workers clients reach in
      let (p, comes, at) = find coming s.threads (omega (arith, inv.attended sleeps)) in
      coming_goes s p comes at inv.exclusive
