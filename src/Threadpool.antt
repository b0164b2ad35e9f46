-- ===== src/Threadpool.antt =====
-- threadpool.c while it runs: the worker threads in `Threadpool_Run` and clients in
-- `Threadpool_Addtask`, at one mutex, one condition and one queue. Each step of a thread is one call on
-- these, or what lies between two calls; the threads take their steps in any order. The queue is the
-- list of its tasks, as DataQueue.Refine allows, but `push` and `pop` read it in one step and write it in
-- another, so that it is the mutex alone that keeps others out. `malloc` gives each task and node.
pub mod Moves
pub mod Snapshots
pub mod Steps
pub mod Invariant
pub mod Safety
pub mod Lifecycle
pub mod Teardown
use epoll_net.Base.{
  ℕ, zero, suc, ◌+◌, ◌≡◌, Bool, true, false, Option, none, some, List, [], ◌∷◌, ◌++◌, if◌then◌else◌,
}
use epoll_net.Memory.{Ptr}
use epoll_net.Threads.{At, weigh, parked}

-- `Threadpool_Task`
pub record Task : Type 0 where
  pub cb : Ptr
  pub arg : Ptr
  pub name : List ℕ

-- What the threads share; the last two fields only record which tasks were queued and taken.
pub record Shared : Type 0 where
  pub locked : Bool
  pub tasks : List Task
  pub added : List Task
  pub taken : List Task

-- Where a thread stands.
pub data Pc : Type 0 where
  -- `Threadpool_Run`: before `lock`, at the test of `while`, before `cwait`, on the condition inside it,
  -- woken there without the mutex, before `pop`, inside it with the first task and the others, before
  -- `unlock` with what `pop` gave, in the callback, before the second `unlock`, behind the error return.
  locking testing sleeping waiting woken popping failing stopped : Pc
  removing : Task → List Task → Pc
  unlocking : Option Task → Pc
  running : Task → Pc
  -- `Threadpool_Addtask`: before `lock` and `push`, inside `push` with the tasks that it found, before
  -- `unlock` and `signal`, and not in it.
  adding pushing : Task → Pc
  storing : Task → List Task → Pc
  leaving signalling away : Pc

-- `pthread_mutex_lock`, and the end of `pthread_cond_wait`, wait for the mutex.
unfoldable pub acquire : Pc → Shared → Option (Pc × Shared)
acquire next s = if s.locked then none else some (next, record s { locked = true })

unfoldable pub release : Pc → Shared → Option (Pc × Shared)
release next s = some (next, record s { locked = false })

-- `while (size <= 0)`
unfoldable pub test : List Task → Shared → Option (Pc × Shared)
test [] s = some (sleeping, s)
test (t ∷ ts) s = some (popping, s)

-- `pop` gives NULL where nothing is queued.
unfoldable pub take_task : List Task → Shared → Option (Pc × Shared)
take_task [] s = some (unlocking none, s)
take_task (t ∷ ts) s = some (removing t ts, s)

-- The next step of a thread, `none` where it waits or has ended.
unfoldable pub advance : Pc → Shared → Option (Pc × Shared)
unfolding acquire release test take_task
advance locking s = acquire testing s
advance testing s = test s.tasks s
advance sleeping s = release waiting s
advance waiting s = none
advance woken s = acquire testing s
advance popping s = take_task s.tasks s
advance (removing t ts) s =
    some (unlocking (some t), record s { tasks = ts; taken = s.taken ++ t ∷ [] })
advance (unlocking none) s = release failing s
advance (unlocking (some t)) s = release (running t) s
advance (running t) s = some (locking, s)
advance failing s = release stopped s
advance stopped s = none
advance (adding t) s = acquire (pushing t) s
advance (pushing t) s = some (storing t s.tasks, s)
advance (storing t ts) s =
    some (leaving, record s { tasks = ts ++ t ∷ []; added = s.added ++ t ∷ [] })
advance leaving s = release signalling s
advance signalling s = none
advance away s = none

abbrev pub is_waiting : Pc → ℕ
is_waiting waiting = 1
is_waiting _ = 0

-- `pthread_cond_signal` wakes one thread that waits, if there is one.
pub data Woke (ps : List Pc) : List Pc → Type 0 where
  one : {qs : List Pc} → At ps waiting woken qs → Woke ps qs
  nobody : weigh is_waiting ps ≡ 0 → Woke ps ps

pub record System : Type 0 where
  pub shared : Shared
  pub threads : List Pc

-- A step of any thread. `pthread_cond_wait` may also return without a signal, and a client may call
-- `Threadpool_Addtask` at any time.
pub data Step (s : System) : System → Type 0 where
  move :
      {p q : Pc} {t : Shared} {ps : List Pc}
      → At s.threads p q ps
      → advance p s.shared ≡ some (q, t)
      → Step s (record { shared = t; threads = ps })
  signal :
      {ps qs : List Pc}
      → At s.threads signalling away ps
      → Woke ps qs
      → Step s (record s { threads = qs })
  wake : {ps : List Pc} → At s.threads waiting woken ps → Step s (record s { threads = ps })
  call :
      {ps : List Pc} {t : Task}
      → At s.threads away (adding t) ps
      → Step s (record s { threads = ps })

pub data Reach (s : System) : System → Type 0 where
  start : Reach s s
  later : {t u : System} → Reach s t → Step t u → Reach s u

-- Some workers and clients before their first step.
abbrev pub initial : ℕ → ℕ → System
initial workers clients = record {
  shared = record { locked = false; tasks = []; added = []; taken = [] };
  threads = parked workers locking (parked clients away []);
}
