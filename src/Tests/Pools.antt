-- ===== src/Tests/Pools.antt =====
-- A pool of one worker and one client, and pools made and destroyed.
use epoll_net.Base.{
  ℕ, ◌+◌, ◌<◌, ◌≤◌, ◌≡◌, Option, none, some, [], ◌∷◌, ◌++◌, refl, arith, false, length, ltb,
  if◌then◌else◌,
}
use epoll_net.Threadpool.{
  Task, waiting, signalling, is_waiting, System, Step, move, call, Reach, start, later, initial,
  advance,
}
use epoll_net.Threads.{here, there, weigh}
use epoll_net.Threadpool.Snapshots.{holds, empty_handed, coming}
use epoll_net.Threadpool.Safety.{IsRun, one_holder, taken_in_order, no_lost_wakeup, no_deadlock}
use epoll_net.Threadpool.Lifecycle.{Threadpool, out_of_bounds, destroy, created, create}
use epoll_net.Threadpool.Teardown.{destroy-create}

abbrev job : Task
job = record { cb = 7; arg = 8; name = [] }

-- The worker sleeps, and the client has queued a task and is about to signal.
abbrev posted : System
posted = record {
  shared = record { locked = false; tasks = job ∷ []; added = job ∷ []; taken = [] };
  threads = waiting ∷ signalling ∷ [];
}

posted-Reach : Reach (initial 1 1) posted
unfolding advance
posted-Reach =
    later
      (later
        (later
          (later
            (later (later (later (later start (move here refl)) (move here refl)) (move here refl))
              (call {t = job} (there here)))
            (move (there here) refl))
          (move (there here) refl))
        (move (there here) refl))
      (move (there here) refl)

one_holder_example : (weigh holds posted.threads ≤ 1) × (weigh empty_handed posted.threads ≡ 0)
one_holder_example = one_holder 1 1 posted-Reach

taken_in_order_example : posted.shared.taken ++ posted.shared.tasks ≡ posted.shared.added
taken_in_order_example = taken_in_order 1 1 posted-Reach

posted-sleeps : 0 < weigh is_waiting posted.threads
unfolding weigh
posted-sleeps = omega arith

no_lost_wakeup_example : length posted.shared.tasks ≤ weigh coming posted.threads
no_lost_wakeup_example = no_lost_wakeup 1 1 posted-Reach posted-sleeps

no_deadlock_example : (t : System) × (step : Step posted t) × IsRun step
no_deadlock_example = no_deadlock 1 1 posted-Reach (omega arith) posted-sleeps

abbrev every : ℕ → Option ℕ
every i = some (i + 50)

every-starts : (i : ℕ) → i < 2 → (id : ℕ) × (every i ≡ some id)
every-starts i h = (i + 50, refl)

destroy-create_example :
    (made : Threadpool) × (create every 0 10 20 30 2 ≡ created made)
    × (made.thread_count ≡ 4)
    × (destroy 0 (some made) ≡ out_of_bounds)
destroy-create_example =
    destroy-create every 0 10 20 30 2 (omega arith) (omega arith) (omega arith) (omega arith)
      every-starts

abbrev first_only : ℕ → Option ℕ
first_only i = if ltb i 1 then some 50 else none

first_only-starts : (i : ℕ) → i < 1 → (id : ℕ) × (first_only i ≡ some id)
first_only-starts i h = (50, ground arith)
