-- ===== src/Server/Workers/Invariant.antt =====
-- What holds in every state that the threads can reach: first with `sem_wait` interrupted at will, then
-- without interruptions.
use epoll_net.Base.{
  ℕ, suc, ◌+◌, ◌≤◌, ◌<◌, ◌≡◌, refl, sym, ap, ◌∙◌, Bool, true, false, none, List, [], ◌∷◌, ◌++◌,
  if◌then◌else◌, arith, length, length-append, append_assoc,
}
use mathlib.Mathlib.Data.Multiset.Defs.{of_list}
use mathlib.Mathlib.Data.Multiset.AddSub.{add}
use epoll_net.Threads.{At, weigh, weigh-At, le-weigh, weigh-parked}
use epoll_net.Server.Workers.{
  Shared, Pc, waiting, sizing, locking, popping, stopped, unlocking, pushing, leaving, posting,
  polling, System, Step, move, arrive, interrupt, Reach, start, later, initial,
}
use epoll_net.Server.Workers.Moves.{
  lock_pop, lock_push, unlock_stop, unlock_handle, unlock_post, Move, takes, gives, passes,
  finds_none, finds, pops_null, pops, handles, pushes, posts, advance-Move,
}
use epoll_net.Server.Workers.Hands.{
  hand, hands, hands_same, hands_pop, hands_done, hands-parked, hands-nil,
}

-- The threads that hold the mutex.
abbrev pub holds : Pc → ℕ
holds popping = 1
holds (unlocking i) = 1
holds (pushing i) = 1
holds leaving = 1
holds _ = 0

abbrev pub owners : Bool → ℕ
owners b = if b then 1 else 0

-- Whatever the signals: one thread at most holds the mutex, items are taken in the order in which they
-- were queued, and an item that was taken is with one worker or done.
pub record Inv (s : Shared) (ps : List Pc) : Type 0 where
  pub exclusive : weigh holds ps ≡ owners s.locked
  pub in_order : s.taken ++ s.items ≡ s.queued
  pub accounted : of_list s.taken ≡ add (hands ps) (of_list s.done)

-- The workers that were let through by the semaphore and did not take an item yet, the items whose post is
-- still to come, and the workers that have nothing from `pop`.
abbrev pub claiming : Pc → ℕ
claiming sizing = 1
claiming locking = 1
claiming popping = 1
claiming _ = 0

abbrev pub owing : Pc → ℕ
owing leaving = 1
owing posting = 1
owing _ = 0

abbrev pub empty_handed : Pc → ℕ
empty_handed (unlocking none) = 1
empty_handed stopped = 1
empty_handed _ = 0

-- Without interruptions: each queued item has a post, a worker that was let through, or a post that is
-- still to come; and no worker comes away without one.
pub record Tally (s : Shared) (ps : List Pc) : Type 0 where
  pub counted : length s.items ≡ s.posts + weigh claiming ps + weigh owing ps
  pub served : weigh empty_handed ps ≡ 0

-- A step that changes neither the queue nor what the thread has.
Inv-step :
    {s s' : Shared} {p q : Pc} {ps qs : List Pc}
    → Inv s ps
    → At ps p q qs
    → owners s'.locked + holds p ≡ owners s.locked + holds q
    → s'.taken ++ s'.items ≡ s'.queued
    → of_list s'.taken ≡ add (hands qs) (of_list s'.done)
    → Inv s' qs
Inv-step inv at lock order account = record {
  exclusive = omega (arith, inv.exclusive, weigh-At holds at);
  in_order = order;
  accounted = account;
}

module _ {s : Shared} {p q : Pc} {ps qs : List Pc} (inv : Inv s ps) (at : At ps p q qs) where
  same_hands : hand p ≡ hand q → of_list s.taken ≡ add (hands qs) (of_list s.done)
  same_hands e = inv.accounted ∙ ap (λ z. add z (of_list s.done)) (sym (hands_same at e))

pub owners-le : (b : Bool) → owners b ≤ 1
owners-le true = omega arith
owners-le false = omega arith

-- A thread that gives the mutex up had it.
held :
    {s : Shared} {p q : Pc} {ps qs : List Pc}
    → Inv s ps
    → At ps p q qs
    → holds p ≡ 1
    → holds q ≡ 0
    → owners s.locked ≡ 1
held {s} inv at had has = omega (arith, inv.exclusive, weigh-At holds at, owners-le s.locked)

Move-Inv :
    {s s' : Shared} {p q : Pc} {ps qs : List Pc}
    → Inv s ps
    → At ps p q qs
    → Move s p q s'
    → Inv s' qs
Move-Inv inv at (takes lock_pop free) =
    Inv-step inv at (ground arith) inv.in_order (same_hands inv at refl)
Move-Inv inv at (takes (lock_push i) free) =
    Inv-step inv at (ground arith) inv.in_order (same_hands inv at refl)
Move-Inv inv at (gives unlock_stop) =
    Inv-step inv at (omega (arith, held inv at refl refl)) inv.in_order (same_hands inv at refl)
Move-Inv inv at (gives (unlock_handle i)) =
    Inv-step inv at (omega (arith, held inv at refl refl)) inv.in_order (same_hands inv at refl)
Move-Inv inv at (gives unlock_post) =
    Inv-step inv at (omega (arith, held inv at refl refl)) inv.in_order (same_hands inv at refl)
Move-Inv inv at (passes n e) = Inv-step inv at (omega arith) inv.in_order (same_hands inv at refl)
Move-Inv inv at (finds_none e) = Inv-step inv at (omega arith) inv.in_order (same_hands inv at refl)
Move-Inv inv at (finds i is e) = Inv-step inv at (omega arith) inv.in_order (same_hands inv at refl)
Move-Inv inv at (pops_null e) = Inv-step inv at (omega arith) inv.in_order (same_hands inv at refl)
Move-Inv {s} inv at (pops i is e) =
    let order =
      append_assoc s.taken (i ∷ []) is ∙ (ap (λ q. s.taken ++ q) (sym e) ∙ inv.in_order) in
    Inv-step inv at (omega arith) order (hands_pop i s.taken s.done at refl refl inv.accounted)
Move-Inv {s} inv at (handles i) =
    Inv-step inv at (omega arith) inv.in_order
      (hands_done i s.taken s.done at refl refl inv.accounted)
Move-Inv {s} inv at (pushes i) =
    let order = sym (append_assoc s.taken s.items (i ∷ [])) ∙ ap (λ q. q ++ i ∷ []) inv.in_order in
    Inv-step inv at (omega arith) order (same_hands inv at refl)
Move-Inv inv at posts = Inv-step inv at (omega arith) inv.in_order (same_hands inv at refl)

-- What a step of one thread changes in the sums of the tally.
Tally-step :
    {s s' : Shared} {p q : Pc} {ps qs : List Pc}
    → Tally s ps
    → At ps p q qs
    → length s'.items + s.posts + claiming p + owing p
      ≡ length s.items + s'.posts + claiming q + owing q
    → empty_handed q ≡ 0
    → Tally s' qs
Tally-step tally at sums fed = record {
  counted = omega (arith, tally.counted, sums, weigh-At claiming at, weigh-At owing at);
  served = omega (arith, tally.served, fed, weigh-At empty_handed at);
}

-- A worker that was let through finds an item.
some_item :
    {s : Shared} {p q : Pc} {ps qs : List Pc}
    → Tally s ps
    → At ps p q qs
    → claiming p ≡ 1
    → 0 < length s.items
some_item tally at e = omega (arith, tally.counted, le-weigh claiming at)

Move-Tally :
    {s s' : Shared} {p q : Pc} {ps qs : List Pc}
    → Tally s ps
    → At ps p q qs
    → Move s p q s'
    → Tally s' qs
Move-Tally tally at (takes lock_pop free) = Tally-step tally at (omega arith) refl
Move-Tally tally at (takes (lock_push i) free) = Tally-step tally at (omega arith) refl
Move-Tally tally at (gives unlock_stop) =
    absurd (omega (arith, tally.served, le-weigh empty_handed at))
Move-Tally tally at (gives (unlock_handle i)) = Tally-step tally at (omega arith) refl
Move-Tally tally at (gives unlock_post) = Tally-step tally at (omega arith) refl
Move-Tally tally at (passes n e) = Tally-step tally at (omega (arith, e)) refl
Move-Tally tally at (finds_none e) =
    absurd (omega (arith, some_item tally at refl, ap (λ q. length q) e))
Move-Tally tally at (finds i is e) = Tally-step tally at (omega arith) refl
Move-Tally tally at (pops_null e) =
    absurd (omega (arith, some_item tally at refl, ap (λ q. length q) e))
Move-Tally {s} tally at (pops i is e) =
    let one_less : length s.items ≡ suc (length is) = ap (λ q. length q) e in
    Tally-step tally at (omega (arith, one_less)) refl
Move-Tally tally at (handles i) = Tally-step tally at (omega arith) refl
Move-Tally {s} tally at (pushes i) =
    Tally-step tally at (omega (arith, length-append {0} s.items (i ∷ []))) refl
Move-Tally tally at posts = Tally-step tally at (omega arith) refl

Step-Inv :
    {signals : Bool} {s t : System}
    → Step signals s t
    → Inv s.shared s.threads
    → Inv t.shared t.threads
Step-Inv (move at e) inv = Move-Inv inv at (advance-Move e)
Step-Inv (arrive at) inv = Inv-step inv at (omega arith) inv.in_order (same_hands inv at refl)
Step-Inv (interrupt e at) inv = Inv-step inv at (omega arith) inv.in_order (same_hands inv at refl)

Step-Tally : {s t : System} → Step false s t → Tally s.shared s.threads → Tally t.shared t.threads
Step-Tally (move at e) tally = Move-Tally tally at (advance-Move e)
Step-Tally (arrive at) tally = Tally-step tally at (omega arith) refl
Step-Tally (interrupt e at) tally = absurd (cc e)

module _ (workers loops : ℕ) where
  weigh-initial :
      (w : Pc → ℕ) → w waiting ≡ 0 → w polling ≡ 0 → weigh w (initial workers loops).threads ≡ 0
  unfolding weigh
  weigh-initial w e f = weigh-parked w workers waiting _ e ∙ weigh-parked w loops polling [] f

  Inv-initial : Inv (initial workers loops).shared (initial workers loops).threads
  Inv-initial = record {
    exclusive = weigh-initial holds refl refl;
    in_order = refl;
    accounted =
        hands-nil
        ∙ ap (λ z. add z (of_list []))
            (sym (hands-parked workers waiting _ refl ∙ hands-parked loops polling [] refl));
  }

  Tally-initial : Tally (initial workers loops).shared (initial workers loops).threads
  Tally-initial = record {
    counted = omega (arith, weigh-initial claiming refl refl, weigh-initial owing refl refl);
    served = weigh-initial empty_handed refl refl;
  }

  pub Reach-Inv :
      {signals : Bool} {s : System}
      → Reach signals (initial workers loops) s
      → Inv s.shared s.threads
  Reach-Inv start = Inv-initial
  Reach-Inv (later r st) = Step-Inv st (Reach-Inv r)

  pub Reach-Tally : {s : System} → Reach false (initial workers loops) s → Tally s.shared s.threads
  Reach-Tally start = Tally-initial
  Reach-Tally (later r st) = Step-Tally st (Reach-Tally r)
