-- ===== src/Server/Workers.antt =====
-- The receive queue while the server runs: worker threads in `Server_Process` of server.c, and the thread
-- of `Server_Loop` in `event_read` of epoll.c, at one mutex, one semaphore and one queue. Each step of a
-- thread is one call on these, or what lies between two calls; the threads take their steps in any
-- order. The queue is the list of its items, as DataQueue.Refine allows.
pub mod Moves
pub mod Hands
pub mod Invariant
pub mod Drain
pub mod Progress
pub mod Safety
use epoll_net.Base.{
  ℕ, zero, suc, ◌+◌, ◌≡◌, Bool, true, false, Option, none, some, List, [], ◌∷◌, ◌++◌, if◌then◌else◌,
}
use epoll_net.World.{Item}
use epoll_net.Threads.{At, parked}

-- What the threads share: the mutex, the value of the semaphore, and the queue. The last three fields
-- only record which items were queued, taken from the queue, and handled and freed.
pub record Shared : Type 0 where
  pub locked : Bool
  pub posts : ℕ
  pub items : List Item
  pub queued : List Item
  pub taken : List Item
  pub done : List Item

-- Where a thread stands.
pub data Pc : Type 0 where
  -- `Server_Process`: before or in `swait`, at the test of `size`, before `lock`, before `pop`, before
  -- `unlock` with what `pop` gave, in `procread` and the frees behind it, behind the return.
  waiting sizing locking popping stopped : Pc
  unlocking : Option Item → Pc
  handling : Item → Pc
  -- `event_read` with a new item: before `lock`, `push`, `unlock` and `post`, and not in it.
  adding pushing : Item → Pc
  leaving posting polling : Pc

unfoldable pub acquire : Pc → Shared → Option (Pc × Shared)
acquire next s = if s.locked then none else some (next, record s { locked = true })

unfoldable pub release : Pc → Shared → Option (Pc × Shared)
release next s = some (next, record s { locked = false })

-- `sem_wait` blocks at 0.
unfoldable pub wait_post : ℕ → Shared → Option (Pc × Shared)
wait_post zero s = none
wait_post (suc n) s = some (sizing, record s { posts = n })

-- `size > 0`, which is read without the mutex.
unfoldable pub test_size : List Item → Shared → Option (Pc × Shared)
test_size [] s = some (waiting, s)
test_size (i ∷ is) s = some (locking, s)

-- `pop` gives NULL where nothing is queued.
unfoldable pub pop_item : List Item → Shared → Option (Pc × Shared)
pop_item [] s = some (unlocking none, s)
pop_item (i ∷ is) s = some (unlocking (some i), record s { items = is; taken = s.taken ++ i ∷ [] })

-- The next step of a thread, `none` where it waits or has ended.
unfoldable pub advance : Pc → Shared → Option (Pc × Shared)
unfolding acquire release wait_post test_size pop_item
advance waiting s = wait_post s.posts s
advance sizing s = test_size s.items s
advance locking s = acquire popping s
advance popping s = pop_item s.items s
advance (unlocking none) s = release stopped s
advance (unlocking (some i)) s = release (handling i) s
advance (handling i) s = some (waiting, record s { done = s.done ++ i ∷ [] })
advance stopped s = none
advance (adding i) s = acquire (pushing i) s
advance (pushing i) s =
    some (leaving, record s { items = s.items ++ i ∷ []; queued = s.queued ++ i ∷ [] })
advance leaving s = release posting s
advance posting s = some (polling, record s { posts = s.posts + 1 })
advance polling s = none

pub record System : Type 0 where
  pub shared : Shared
  pub threads : List Pc

-- A step of any thread. Bytes may arrive at any time, and where `signals` may come, `sem_wait` may return
-- without a post, which `Server_Process` does not notice.
pub data Step (signals : Bool) (s : System) : System → Type 0 where
  move :
      {p q : Pc} {t : Shared} {ps : List Pc}
      → At s.threads p q ps
      → advance p s.shared ≡ some (q, t)
      → Step signals s (record { shared = t; threads = ps })
  arrive :
      {ps : List Pc} {i : Item}
      → At s.threads polling (adding i) ps
      → Step signals s (record s { threads = ps })
  interrupt :
      {ps : List Pc}
      → signals ≡ true
      → At s.threads waiting sizing ps
      → Step signals s (record s { threads = ps })

pub data Reach (signals : Bool) (s : System) : System → Type 0 where
  start : Reach signals s s
  later : {t u : System} → Reach signals s t → Step signals t u → Reach signals s u

-- Workers and loops before their first step.
abbrev pub initial : ℕ → ℕ → System
initial workers loops = record {
  shared = record { locked = false; posts = 0; items = []; queued = []; taken = []; done = [] };
  threads = parked workers waiting (parked loops polling []);
}
