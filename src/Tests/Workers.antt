-- ===== src/Tests/Workers.antt =====
-- One item that arrives and is handled, and a worker that returns after an interruption.
use epoll_net.Base.{◌+◌, ◌*◌, ◌≤◌, ◌≡◌, none, List, [], ◌∷◌, ◌++◌, refl, arith, true, false, length}
use mathlib.Mathlib.Data.Multiset.Defs.{of_list}
use mathlib.Mathlib.Data.Multiset.AddSub.{add}
use epoll_net.World.{Item}
use epoll_net.Threads.{At, here, there, weigh}
use epoll_net.Server.Workers.{
  Shared, Pc, handling, waiting, polling, stopped, advance, System, move, arrive, interrupt, Reach,
  start, later, initial,
}
use epoll_net.Server.Workers.Hands.{hands}
use epoll_net.Server.Workers.Invariant.{holds, claiming, owing, empty_handed}
use epoll_net.Server.Workers.Drain.{moves, arrivals, interrupts, workload, moves-le}
use epoll_net.Server.Workers.Progress.{AtRest}
use epoll_net.Server.Workers.Safety.{taken_once, no_worker_returns, all_done}

abbrev item : Item
item = record { connobj = 50; recvptr = 60; recvlen = 3 }

-- The item is queued and posted.
abbrev posted : System
posted = record {
  shared = record {
    locked = false;
    posts = 1;
    items = item ∷ [];
    queued = item ∷ [];
    taken = [];
    done = [];
  };
  threads = waiting ∷ polling ∷ [];
}

posted-Reach : Reach false (initial 1 1) posted
unfolding advance
posted-Reach =
    later
      (later
        (later (later (later start (arrive {i = item} (there here))) (move (there here) refl))
          (move (there here) refl))
        (move (there here) refl))
      (move (there here) refl)

-- The item is handled.
abbrev settled : System
settled = record {
  shared = record {
    locked = false;
    posts = 0;
    items = [];
    queued = item ∷ [];
    taken = item ∷ [];
    done = item ∷ [];
  };
  threads = waiting ∷ polling ∷ [];
}

settled-Reach : Reach false (initial 1 1) settled
unfolding advance
settled-Reach =
    later
      (later
        (later
          (later (later (later posted-Reach (move here refl)) (move here refl)) (move here refl))
          (move here refl))
        (move here refl))
      (move here refl)

-- Threads that all stand where no step leads on.
abbrev Still : Shared → List Pc → Type 0
Still s [] = Unit {0}
Still s (p ∷ ps) = (advance p s ≡ none) × Still s ps

Still-At :
    (s : Shared) {p q : Pc} {ps qs : List Pc} → At ps p q qs → Still s ps → advance p s ≡ none
Still-At s here (e, rest) = e
Still-At s (there at) (e, rest) = Still-At s at rest

settled-Still : Still settled.shared settled.threads
unfolding advance
settled-Still = (refl, (refl, tt))

settled-AtRest : AtRest settled
settled-AtRest t (move at e) m = let stays = Still-At settled.shared at settled-Still in cc
settled-AtRest t (arrive at) m = m
settled-AtRest t (interrupt e at) m = m

taken_once_example :
    (weigh holds posted.threads ≤ 1)
    × ([] ++ item ∷ [] ≡ item ∷ [])
    × (of_list [] ≡ add (hands posted.threads) (of_list []))
taken_once_example = taken_once 1 1 posted-Reach

no_worker_returns_example :
    (length (item ∷ []) ≡ 1 + weigh claiming posted.threads + weigh owing posted.threads)
    × (weigh empty_handed posted.threads ≡ 0)
no_worker_returns_example = no_worker_returns 1 1 posted-Reach

all_done_example :
    (settled.shared.items ≡ []) × (of_list settled.shared.queued ≡ of_list settled.shared.done)
all_done_example = all_done 1 1 settled-Reach (omega arith) settled-AtRest

moves-le_example :
    moves settled-Reach + workload settled.shared settled.threads
    ≤ 12 * arrivals settled-Reach + 5 * interrupts settled-Reach
moves-le_example = moves-le 1 1 settled-Reach

-- Two workers and one item: one worker is let through by an interruption, the other by the post. Both see
-- the item, one takes it, and the other gets NULL and returns.
abbrev returned : System
returned = record {
  shared = record {
    locked = false;
    posts = 0;
    items = [];
    queued = item ∷ [];
    taken = item ∷ [];
    done = [];
  };
  threads = handling item ∷ stopped ∷ polling ∷ [];
}

returned-Reach : Reach true (initial 2 1) returned
unfolding advance
returned-Reach =
    let arrived : Reach true (initial 2 1) _ =
      later start (arrive {i = item} (there (there here))) in
    let pushed =
      later (later arrived (move (there (there here)) refl)) (move (there (there here)) refl) in
    let offered =
      later (later pushed (move (there (there here)) refl)) (move (there (there here)) refl) in
    let both = later (later offered (interrupt refl (there here))) (move here refl) in
    let seen = later (later both (move here refl)) (move (there here) refl) in
    let popped = later (later (later seen (move here refl)) (move here refl)) (move here refl) in
    later (later (later popped (move (there here) refl)) (move (there here) refl))
      (move (there here) refl)
