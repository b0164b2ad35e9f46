-- ===== src/Threadpool/Invariant.antt =====
-- What holds in every state that the threads can reach.
use epoll_net.Base.{ℕ, ◌≡◌, refl, ap, ◌∙◌, List, [], arith, length}
use epoll_net.Threadpool.{
  Shared, Pc, locking, waiting, woken, signalling, away, is_waiting, Woke, one, nobody, System,
  Step, move, signal, wake, call, Reach, start, later, initial,
}
use epoll_net.Threads.{At, weigh, weigh-At, le-weigh, weigh-parked}
use epoll_net.Threadpool.Snapshots.{
  holds, sleeps, about_to_pop, empty_handed, coming, AllFresh-At, AllFresh-free,
}
use epoll_net.Threadpool.Moves.{
  Move, takes, gives, finds_none, waits, goes_on, pops_null, reads_first, pops, returns, reads_all,
  pushes, advance-Move,
}
use epoll_net.Threadpool.Steps.{
  Inv-pass, acquire-Inv, release-Inv, finds_none-Inv, waits-Inv, goes_on-Inv, pops-Inv, pushes-Inv,
  Inv,
}

Move-Inv :
    {s s' : Shared} {p q : Pc} {ps qs : List Pc}
    → Inv s ps
    → At ps p q qs
    → Move s p q s'
    → Inv s' qs
Move-Inv inv at (takes a free) = acquire-Inv inv at a free
Move-Inv inv at (gives r) = release-Inv inv at r
Move-Inv inv at (finds_none none_left) = finds_none-Inv inv at none_left
Move-Inv inv at waits = waits-Inv inv at
Move-Inv inv at (goes_on t ts e) = goes_on-Inv t ts inv at e
Move-Inv inv at (pops_null e) =
    absurd (omega (arith, inv.supplied, le-weigh about_to_pop at, ap (λ q. length q) e))
Move-Inv {s} inv at (reads_first t ts e) =
    Inv-pass s.locked inv at (omega arith) (omega arith) refl refl (omega arith) refl e
Move-Inv inv at (pops t ts) = pops-Inv t ts inv at
Move-Inv {s} inv at (returns t) =
    Inv-pass s.locked inv at (omega arith) (omega arith) refl refl (omega arith) refl tt
Move-Inv {s} inv at (reads_all t) =
    Inv-pass s.locked inv at (omega arith) (omega arith) refl refl (omega arith) refl refl
Move-Inv inv at (pushes t ts) = pushes-Inv t ts inv at

-- A thread that sleeps is woken.
wake-Inv : {s : Shared} {ps qs : List Pc} → Inv s ps → At ps waiting woken qs → Inv s qs
wake-Inv {s} inv at =
    Inv-pass s.locked inv at (omega arith) (omega arith) refl refl (omega arith) refl tt

-- The signal is worth the wakening of one thread, and where nobody sleeps it is not needed.
signal-Inv :
    {s : Shared} {ps qs rs : List Pc} → Inv s ps → At ps signalling away qs → Woke qs rs → Inv s rs
signal-Inv inv at (one woken_one) = record {
  exclusive = omega (arith, inv.exclusive, weigh-At holds at, weigh-At holds woken_one);
  supplied = omega (arith, inv.supplied, weigh-At about_to_pop at, weigh-At about_to_pop woken_one);
  served = omega (arith, inv.served, weigh-At empty_handed at, weigh-At empty_handed woken_one);
  in_order = inv.in_order;
  attended = λ some_wait. omega (
    arith,
    inv.attended (omega (arith, weigh-At is_waiting at, weigh-At is_waiting woken_one)),
    weigh-At coming at,
    weigh-At coming woken_one,
  );
  idle = λ some_sleep. inv.idle (omega (arith, weigh-At sleeps at, weigh-At sleeps woken_one));
  fresh = AllFresh-At _ woken_one tt (AllFresh-At _ at tt inv.fresh);
}
signal-Inv inv at (nobody none_wait) = record {
  exclusive = omega (arith, inv.exclusive, weigh-At holds at);
  supplied = omega (arith, inv.supplied, weigh-At about_to_pop at);
  served = omega (arith, inv.served, weigh-At empty_handed at);
  in_order = inv.in_order;
  attended = λ some_wait. absurd (omega (arith, none_wait));
  idle = λ some_sleep. inv.idle (omega (arith, weigh-At sleeps at));
  fresh = AllFresh-At _ at tt inv.fresh;
}

Step-Inv : {s t : System} → Step s t → Inv s.shared s.threads → Inv t.shared t.threads
Step-Inv (move at e) inv = Move-Inv inv at (advance-Move e)
Step-Inv (signal at w) inv = signal-Inv inv at w
Step-Inv (wake at) inv = wake-Inv inv at
Step-Inv {s} (call at) inv =
    Inv-pass s.shared.locked inv at (omega arith) (omega arith) refl refl (omega arith) refl tt

weigh-initial :
    (w : Pc → ℕ) (workers clients : ℕ)
    → w locking ≡ 0
    → w away ≡ 0
    → weigh w (initial workers clients).threads ≡ 0
unfolding weigh
weigh-initial w workers clients e f =
    weigh-parked w workers locking _ e ∙ weigh-parked w clients away [] f

Inv-initial :
    (workers clients : ℕ) → Inv (initial workers clients).shared (initial workers clients).threads
Inv-initial workers clients = record {
  exclusive = weigh-initial holds workers clients refl refl;
  supplied = omega (arith, weigh-initial about_to_pop workers clients refl refl);
  served = weigh-initial empty_handed workers clients refl refl;
  in_order = refl;
  attended = λ some_wait. omega arith;
  idle = λ some_sleep. refl;
  fresh =
      AllFresh-free [] (initial workers clients).threads
        (weigh-initial holds workers clients refl refl);
}

pub Reach-Inv :
    (workers clients : ℕ) {s : System} → Reach (initial workers clients) s → Inv s.shared s.threads
Reach-Inv workers clients start = Inv-initial workers clients
Reach-Inv workers clients (later r st) = Step-Inv st (Reach-Inv workers clients r)
