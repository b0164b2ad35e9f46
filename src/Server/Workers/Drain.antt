-- ===== src/Server/Workers/Drain.antt =====
-- How many steps the threads can take: each step of the program uses up work that an arrival brought.
use epoll_net.Base.{
  ℕ, suc, ◌+◌, ◌*◌, ◌≤◌, ◌<◌, ◌≡◌, refl, ap, Bool, none, some, List, [], ◌∷◌, arith, length,
  length-append,
}
use epoll_net.Threads.{At, weigh, weigh-At, weigh-parked}
use epoll_net.Server.Workers.{
  Shared, Pc, waiting, sizing, locking, popping, unlocking, handling, adding, pushing, leaving,
  posting, polling, System, move, arrive, interrupt, Reach, start, later, initial,
}
use epoll_net.Server.Workers.Moves.{
  lock_pop, lock_push, unlock_stop, unlock_handle, unlock_post, Move, takes, gives, passes,
  finds_none, finds, pops_null, pops, handles, pushes, posts, advance-Move,
}

-- The steps that a thread may still take where it stands.
abbrev work : Pc → ℕ
work p = elim p [
  | adding i ↦ 12
  | pushing i ↦ 11
  | leaving ↦ 8
  | posting ↦ 7
  | sizing ↦ 5
  | locking ↦ 4
  | popping ↦ 3
  | unlocking i ↦ elim i [ none ↦ 1 | some j ↦ 2 ]
  | handling i ↦ 1
  | _ ↦ 0
]

-- A queued item stands for two steps, and a post for six.
abbrev pub workload : Shared → List Pc → ℕ
workload s ps = weigh work ps + 2 * length s.items + 6 * s.posts

Move-workload :
    {s s' : Shared} {p q : Pc} {ps qs : List Pc}
    → At ps p q qs
    → Move s p q s'
    → workload s' qs < workload s ps
Move-workload at (takes lock_pop free) = omega (arith, weigh-At work at)
Move-workload at (takes (lock_push i) free) = omega (arith, weigh-At work at)
Move-workload at (gives unlock_stop) = omega (arith, weigh-At work at)
Move-workload at (gives (unlock_handle i)) = omega (arith, weigh-At work at)
Move-workload at (gives unlock_post) = omega (arith, weigh-At work at)
Move-workload at (passes n e) = omega (arith, weigh-At work at, e)
Move-workload at (finds_none e) = omega (arith, weigh-At work at)
Move-workload at (finds i is e) = omega (arith, weigh-At work at)
Move-workload at (pops_null e) = omega (arith, weigh-At work at)
Move-workload {s} at (pops i is e) =
    let one_less : length s.items ≡ suc (length is) = ap (λ q. length q) e in
    omega (arith, weigh-At work at, one_less)
Move-workload at (handles i) = omega (arith, weigh-At work at)
Move-workload {s} at (pushes i) =
    omega (arith, weigh-At work at, length-append {0} s.items (i ∷ []))
Move-workload at posts = omega (arith, weigh-At work at)

module _ {signals : Bool} {s : System} where
  -- The steps of the program in a run, the arrivals, and the interruptions.
  abbrev pub moves : {t : System} → Reach signals s t → ℕ
  moves start = 0
  moves (later r (move at e)) = suc (moves r)
  moves (later r (arrive at)) = moves r
  moves (later r (interrupt e at)) = moves r

  abbrev pub arrivals : {t : System} → Reach signals s t → ℕ
  arrivals start = 0
  arrivals (later r (move at e)) = arrivals r
  arrivals (later r (arrive at)) = suc (arrivals r)
  arrivals (later r (interrupt e at)) = arrivals r

  abbrev pub interrupts : {t : System} → Reach signals s t → ℕ
  interrupts start = 0
  interrupts (later r (move at e)) = interrupts r
  interrupts (later r (arrive at)) = interrupts r
  interrupts (later r (interrupt e at)) = suc (interrupts r)

-- In any run the program takes at most 12 steps for each item that arrives and 5 for each interruption of
-- `sem_wait`, in whatever order the threads take them: between two arrivals all come to rest.
pub moves-le :
    (workers loops : ℕ) {signals : Bool} {s : System} (r : Reach signals (initial workers loops) s)
    → moves r + workload s.shared s.threads ≤ 12 * arrivals r + 5 * interrupts r
unfolding weigh
moves-le workers loops start =
    omega (arith, weigh-parked work workers waiting _ refl, weigh-parked work loops polling [] refl)
moves-le workers loops (later r (move at e)) =
    omega (arith, moves-le workers loops r, Move-workload at (advance-Move e))
moves-le workers loops (later r (arrive at)) =
    omega (arith, moves-le workers loops r, weigh-At work at)
moves-le workers loops (later r (interrupt e at)) =
    omega (arith, moves-le workers loops r, weigh-At work at)
