-- ===== src/Server/Workers/Progress.antt =====
-- Which threads can take a step, and what that says of a state in which none can.
use epoll_net.Base.{
  ℕ, zero, suc, ◌<◌, ◌≡◌, refl, ap, Bool, true, false, inl, inr, none, some, List, [], ◌∷◌,
  if◌then◌else◌, arith, Bool-cases, ltb,
}
use epoll_net.World.{Item}
use epoll_net.Threads.{At, weigh, find}
use epoll_net.Server.Workers.{
  Shared, Pc, waiting, sizing, locking, popping, stopped, unlocking, handling, adding, pushing,
  leaving, posting, polling, System, Step, move, arrive, interrupt, advance, acquire, wait_post,
  test_size, pop_item,
}
use epoll_net.Server.Workers.Invariant.{holds, owners, claiming, owing, empty_handed}

-- A step of the program, in place of an arrival or an interruption.
abbrev pub IsMove : {signals : Bool} {s t : System} → Step signals s t → Type 0
IsMove (move at e) = Unit {0}
IsMove (arrive at) = ⊥
IsMove (interrupt e at) = ⊥

-- No thread can take a step of the program.
abbrev pub AtRest : System → Type 0
AtRest s = (t : System) (step : Step false s t) → IsMove step → ⊥

abbrev pub Goes : Pc → Shared → Type 0
Goes p s = (q : Pc) × (t : Shared) × (advance p s ≡ some (q, t))

-- The workers, those of them that have an item in their hands, and the threads with an item to add.
abbrev pub is_worker : Pc → ℕ
is_worker (adding i) = 0
is_worker (pushing i) = 0
is_worker leaving = 0
is_worker posting = 0
is_worker polling = 0
is_worker _ = 1

abbrev pub busy : Pc → ℕ
busy (unlocking (some i)) = 1
busy (handling i) = 1
busy _ = 0

wait_post_goes :
    (n : ℕ) (s : Shared) → 0 < n → (q : Pc) × (t : Shared) × (wait_post n s ≡ some (q, t))
unfolding wait_post
wait_post_goes zero s h = absurd (omega arith)
wait_post_goes (suc n) s h = (_, _, refl)

test_size_goes :
    (is : List Item) (s : Shared) → (q : Pc) × (t : Shared) × (test_size is s ≡ some (q, t))
unfolding test_size
test_size_goes [] s = (_, _, refl)
test_size_goes (i ∷ is) s = (_, _, refl)

pop_item_goes :
    (is : List Item) (s : Shared) → (q : Pc) × (t : Shared) × (pop_item is s ≡ some (q, t))
unfolding pop_item
pop_item_goes [] s = (_, _, refl)
pop_item_goes (i ∷ is) s = (_, _, refl)

acquire_goes :
    (q : Pc) (s : Shared) → s.locked ≡ false → (r : Pc) × (t : Shared) × (acquire q s ≡ some (r, t))
unfolding acquire
acquire_goes q s free = (
  q,
  record s { locked = true },
  ap (λ b. if b then none else some (q, record s { locked = true })) free,
)

-- A thread that has the mutex never waits.
holder-Goes : (p : Pc) (s : Shared) → 0 < holds p → Goes p s
unfolding advance
holder-Goes popping s h = pop_item_goes s.items s
holder-Goes (unlocking none) s h = (_, _, refl)
holder-Goes (unlocking (some i)) s h = (_, _, refl)
holder-Goes (pushing i) s h = (_, _, refl)
holder-Goes leaving s h = (_, _, refl)
holder-Goes _ s h = absurd (omega arith)

module _ (s : System) (rest : AtRest s) where
  pub stuck : (p : Pc) → ((q : Pc) → (qs : List Pc) × At s.threads p q qs) → Goes p s.shared → ⊥
  stuck p at (q, t, e) = rest _ (move (at q).1 e) tt

  module _ (exclusive : weigh holds s.threads ≡ owners s.shared.locked) where
    -- The mutex is free, since a thread that had it would go on.
    pub unlocked : s.shared.locked ≡ false
    unlocked = elim (Bool-cases s.shared.locked) [
      | inl held ↦
          let (p, has, at) = find holds s.threads (ground (arith, exclusive)) in
          absurd (stuck p at (holder-Goes p s.shared has))
      | inr free ↦ free
    ]

    -- So whoever has something to do goes on.
    pub idle : (w : Pc → ℕ) → ((p : Pc) → 0 < w p → Goes p s.shared) → weigh w s.threads ≡ 0
    idle w goes = elim (Bool-cases (ltb 0 (weigh w s.threads))) [
      | inl some_weight ↦
          let (p, heavy, at) = find w s.threads (ground arith) in absurd (stuck p at (goes p heavy))
      | inr none_weight ↦ ground arith
    ]

pub claiming-Goes : (p : Pc) (s : Shared) → s.locked ≡ false → 0 < claiming p → Goes p s
unfolding advance
claiming-Goes sizing s free h = test_size_goes s.items s
claiming-Goes locking s free h = acquire_goes popping s free
claiming-Goes popping s free h = pop_item_goes s.items s
claiming-Goes _ s free h = absurd (omega arith)

pub owing-Goes : (p : Pc) (s : Shared) → 0 < owing p → Goes p s
unfolding advance
owing-Goes leaving s h = (_, _, refl)
owing-Goes posting s h = (_, _, refl)
owing-Goes _ s h = absurd (omega arith)

pub busy-Goes : (p : Pc) (s : Shared) → 0 < busy p → Goes p s
unfolding advance
busy-Goes (unlocking (some i)) s h = (_, _, refl)
busy-Goes (handling i) s h = (_, _, refl)
busy-Goes _ s h = absurd (omega arith)

-- A worker at rest waits for the semaphore at 0.
pub worker_rests :
    (p : Pc) (s : Shared)
    → s.locked ≡ false
    → 0 < is_worker p
    → empty_handed p ≡ 0
    → 0 < s.posts
    → Goes p s
unfolding advance
worker_rests waiting s free h fed posted = wait_post_goes s.posts s posted
worker_rests sizing s free h fed posted = test_size_goes s.items s
worker_rests locking s free h fed posted = acquire_goes popping s free
worker_rests popping s free h fed posted = pop_item_goes s.items s
worker_rests stopped s free h fed posted = absurd (omega arith)
worker_rests (unlocking none) s free h fed posted = (_, _, refl)
worker_rests (unlocking (some i)) s free h fed posted = (_, _, refl)
worker_rests (handling i) s free h fed posted = (_, _, refl)
worker_rests _ s free h fed posted = absurd (omega arith)
