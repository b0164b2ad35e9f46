-- ===== src/Server/Workers/Safety.antt =====
-- What the receive queue promises, in every state that any order of steps leads to.
use epoll_net.Base.{
  ℕ, zero, suc, ◌+◌, ◌≤◌, ◌<◌, ◌≡◌, refl, sym, ap, ◌∙◌, Bool, false, inl, inr, none, some, List, [],
  ◌∷◌, ◌++◌, arith, length, Bool-cases, append-nil, ltb,
}
use mathlib.Mathlib.Data.Multiset.Defs.{Multiset, of_list}
use mathlib.Mathlib.Data.Multiset.AddSub.{add}
use epoll_net.World.{Item}
use epoll_net.Threads.{weigh, weigh-At, le-weigh, weigh-parked, find}
use epoll_net.Server.Workers.{
  Shared, Pc, waiting, sizing, locking, popping, stopped, unlocking, handling, adding, pushing,
  leaving, posting, polling, System, move, arrive, interrupt, Reach, start, later, initial,
}
use epoll_net.Server.Workers.Moves.{
  lock_pop, lock_push, unlock_stop, unlock_handle, unlock_post, Move, takes, gives, passes,
  finds_none, finds, pops_null, pops, handles, pushes, posts, advance-Move,
}
use epoll_net.Server.Workers.Hands.{hand, hands, none-add}
use epoll_net.Server.Workers.Invariant.{
  holds, owners-le, claiming, owing, empty_handed, Reach-Inv, Reach-Tally,
}
use epoll_net.Server.Workers.Progress.{
  AtRest, is_worker, busy, stuck, unlocked, idle, claiming-Goes, owing-Goes, busy-Goes,
  worker_rests,
}

Move-is_worker : {s s' : Shared} {p q : Pc} → Move s p q s' → is_worker q ≡ is_worker p
Move-is_worker (takes lock_pop free) = refl
Move-is_worker (takes (lock_push i) free) = refl
Move-is_worker (gives unlock_stop) = refl
Move-is_worker (gives (unlock_handle i)) = refl
Move-is_worker (gives unlock_post) = refl
Move-is_worker (passes n e) = refl
Move-is_worker (finds_none e) = refl
Move-is_worker (finds i is e) = refl
Move-is_worker (pops_null e) = refl
Move-is_worker (pops i is e) = refl
Move-is_worker (handles i) = refl
Move-is_worker (pushes i) = refl
Move-is_worker posts = refl

weigh-workers : (workers loops : ℕ) → weigh is_worker (initial workers loops).threads ≡ workers
unfolding weigh
weigh-workers zero loops = weigh-parked is_worker loops polling [] refl
weigh-workers (suc n) loops = omega (arith, weigh-workers n loops)

-- The workers stay workers.
Reach-workers :
    (workers loops : ℕ) {signals : Bool} {s : System}
    → Reach signals (initial workers loops) s
    → weigh is_worker s.threads ≡ workers
Reach-workers workers loops start = weigh-workers workers loops
Reach-workers workers loops (later r (move at e)) =
    omega
      (arith, Reach-workers workers loops r, weigh-At is_worker at, Move-is_worker (advance-Move e))
Reach-workers workers loops (later r (arrive at)) =
    omega (arith, Reach-workers workers loops r, weigh-At is_worker at)
Reach-workers workers loops (later r (interrupt e at)) =
    omega (arith, Reach-workers workers loops r, weigh-At is_worker at)

hand-idle : (p : Pc) → busy p ≡ 0 → ◌≡◌ {A = Multiset Item} (hand p) (of_list [])
hand-idle (unlocking none) e = refl
hand-idle (unlocking (some i)) e = absurd (omega arith)
hand-idle (handling i) e = absurd (omega arith)
hand-idle waiting e = refl
hand-idle sizing e = refl
hand-idle locking e = refl
hand-idle popping e = refl
hand-idle stopped e = refl
hand-idle (adding i) e = refl
hand-idle (pushing i) e = refl
hand-idle leaving e = refl
hand-idle posting e = refl
hand-idle polling e = refl

hands-idle : (ps : List Pc) → weigh busy ps ≡ 0 → ◌≡◌ {A = Multiset Item} (hands ps) (of_list [])
unfolding hands weigh
hands-idle [] e = refl
hands-idle (p ∷ ps) e =
    ap (λ z. add z (hands ps)) (hand-idle p (omega arith))
    ∙ (none-add (hands ps) ∙ hands-idle ps (omega arith))

length-nil : {A : Type 0} (xs : List A) → length xs ≡ 0 → xs ≡ []
length-nil [] e = refl
length-nil (x ∷ xs) e = absurd (omega arith)

module _ (workers loops : ℕ) {s : System} where
  -- Whether or not `sem_wait` is interrupted: one thread at most is between `lock` and `unlock`; the items
  -- that workers took and those still queued are, in this order, the items that were queued; and each item
  -- that was taken is in the hands of one worker, or it was handled, once.
  pub taken_once :
      {signals : Bool}
      → Reach signals (initial workers loops) s
      → (weigh holds s.threads ≤ 1)
        × (s.shared.taken ++ s.shared.items ≡ s.shared.queued)
        × (of_list s.shared.taken ≡ add (hands s.threads) (of_list s.shared.done))
  taken_once reach =
      let inv = Reach-Inv workers loops reach in
      (omega (arith, inv.exclusive, owners-le s.shared.locked), inv.in_order, inv.accounted)

  module _ (reach : Reach false (initial workers loops) s) where
    -- While `sem_wait` is not interrupted, the queue has as many items as the semaphore counts, workers
    -- were let through for, and the loop has still to post; so no worker gets NULL from `pop` and returns.
    pub no_worker_returns :
        (length s.shared.items ≡ s.shared.posts + weigh claiming s.threads + weigh owing s.threads)
        × (weigh empty_handed s.threads ≡ 0)
    no_worker_returns = let tally = Reach-Tally workers loops reach in (tally.counted, tally.served)

    -- While `sem_wait` is not interrupted, and with a worker: when no thread can take a step any more,
    -- the queue is empty, and all that was ever queued was handled, each item as often as it was queued.
    pub all_done :
        0 < workers
        → AtRest s
        → (s.shared.items ≡ []) × (of_list s.shared.queued ≡ of_list s.shared.done)
    all_done some_worker rest =
        let inv = Reach-Inv workers loops reach in
        let tally = Reach-Tally workers loops reach in
        let free = unlocked s rest inv.exclusive in
        let (p, works, at) =
          find is_worker s.threads (omega (arith, Reach-workers workers loops reach)) in
        let fed : empty_handed p ≡ 0 =
          omega (arith, tally.served, le-weigh empty_handed (at p).1) in
        let no_claim =
          idle s rest inv.exclusive claiming (λ p h. claiming-Goes p s.shared free h) in
        let no_owing = idle s rest inv.exclusive owing (λ p h. owing-Goes p s.shared h) in
        let no_busy = idle s rest inv.exclusive busy (λ p h. busy-Goes p s.shared h) in
        let none_posted : s.shared.posts ≡ 0 = elim (Bool-cases (ltb 0 s.shared.posts)) [
          | inl posted ↦
              absurd (stuck s rest p at (worker_rests p s.shared free works fed (ground arith)))
          | inr none_left ↦ ground arith
        ] in
        let empty =
          length-nil s.shared.items
            (omega (arith, tally.counted, no_claim, no_owing, none_posted)) in
        let order : s.shared.taken ≡ s.shared.queued =
          sym (append-nil s.shared.taken)
          ∙ (ap (λ q. s.shared.taken ++ q) (sym empty) ∙ inv.in_order) in
        let idle_hands = ap (λ z. add z (of_list s.shared.done)) (hands-idle s.threads no_busy) in
        (
          empty,
          ap (λ q. of_list q) (sym order)
              ∙ (inv.accounted ∙ (idle_hands ∙ none-add (of_list s.shared.done))),
        )
