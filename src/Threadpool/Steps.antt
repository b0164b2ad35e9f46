-- ===== src/Threadpool/Steps.antt =====
-- What every state of a pool has, and how the steps of its threads keep it.
use epoll_net.Base.{
  ℕ, suc, ◌+◌, ◌≤◌, ◌<◌, ◌≡◌, refl, sym, ap, ◌∙◌, Bool, true, false, some, List, [], ◌∷◌, ◌++◌,
  if◌then◌else◌, arith, length, length-append, append_assoc,
}
use epoll_net.Threadpool.{
  Shared, Pc, Task, testing, sleeping, removing, storing, waiting, popping, unlocking, leaving,
  is_waiting,
}
use epoll_net.Threads.{At, weigh, weigh-At, le-weigh, weigh-le}
use epoll_net.Threadpool.Snapshots.{
  holds, tests, sleeps, stores, about_to_pop, empty_handed, coming, tests-holds, sleeps-holds,
  Fresh, AllFresh, Fresh-At, AllFresh-At, AllFresh-alone,
}
use epoll_net.Threadpool.Moves.{
  Acquires, lock_run, lock_wait, lock_add, Releases, unlock_stop, unlock_run, unlock_add,
  unlock_again,
}

abbrev pub owners : Bool → ℕ
owners b = if b then 1 else 0

-- One thread at most holds the mutex; a thread before `pop` finds a task; nobody comes away without one;
-- tasks are taken in the order in which they were added; and no task waits for a thread that sleeps
-- unless another thread will look after it. A thread that is about to sleep left the queue empty, and a
-- thread inside `push` or `pop` knows what is queued.
pub record Inv (s : Shared) (ps : List Pc) : Type 0 where
  pub exclusive : weigh holds ps ≡ owners s.locked
  pub supplied : weigh about_to_pop ps ≤ length s.tasks
  pub served : weigh empty_handed ps ≡ 0
  pub in_order : s.taken ++ s.tasks ≡ s.added
  pub attended : 0 < weigh is_waiting ps → length s.tasks ≤ weigh coming ps
  pub idle : 0 < weigh sleeps ps → length s.tasks ≡ 0
  pub fresh : AllFresh s.tasks ps

pub owners-le : (b : Bool) → owners b ≤ 1
owners-le true = omega arith
owners-le false = omega arith

-- The invariant behind a step of one thread, from what the step changes for that thread.
Inv-step :
    {s s' : Shared} {p q : Pc} {ps qs : List Pc}
    → Inv s ps
    → At ps p q qs
    → owners s'.locked + holds p ≡ owners s.locked + holds q
    → about_to_pop q + length s.tasks ≤ about_to_pop p + length s'.tasks
    → empty_handed q ≡ 0
    → s'.taken ++ s'.tasks ≡ s'.added
    → is_waiting q ≡ 0
    → length s'.tasks + coming p ≤ length s.tasks + coming q
    → sleeps q ≡ 0
    → (0 < weigh sleeps ps → length s'.tasks ≡ 0)
    → AllFresh s'.tasks qs
    → Inv s' qs
Inv-step inv at lock supply fed order awake care open_eyed calm fresh = record {
  exclusive = omega (arith, inv.exclusive, weigh-At holds at);
  supplied = omega (arith, inv.supplied, weigh-At about_to_pop at);
  served = omega (arith, inv.served, weigh-At empty_handed at);
  in_order = order;
  attended = λ some_wait.
      omega (arith, inv.attended (omega (arith, weigh-At is_waiting at)), weigh-At coming at);
  idle = λ some_sleep. calm (omega (arith, weigh-At sleeps at));
  fresh = fresh;
}

-- The same where the queue is left alone.
pub Inv-pass :
    {s : Shared} {p q : Pc} {ps qs : List Pc} (b : Bool)
    → Inv s ps
    → At ps p q qs
    → owners b + holds p ≡ owners s.locked + holds q
    → about_to_pop q ≤ about_to_pop p
    → empty_handed q ≡ 0
    → is_waiting q ≡ 0
    → coming p ≤ coming q
    → sleeps q ≡ 0
    → Fresh s.tasks q
    → Inv (record s { locked = b }) qs
Inv-pass b inv at lock supply fed awake care open_eyed new =
    Inv-step inv at lock (omega arith) fed inv.in_order awake (omega arith) open_eyed inv.idle
      (AllFresh-At _ at new inv.fresh)

-- A thread that gives the mutex up had it.
held-owners :
    {s : Shared} {p q : Pc} {ps qs : List Pc}
    → Inv s ps
    → At ps p q qs
    → holds p ≡ 1
    → holds q ≡ 0
    → owners s.locked ≡ 1
held-owners {s} inv at had has = omega (arith, inv.exclusive, weigh-At holds at, owners-le s.locked)

pub acquire-Inv :
    {s : Shared} {p q : Pc} {ps qs : List Pc}
    → Inv s ps
    → At ps p q qs
    → Acquires p q
    → s.locked ≡ false
    → Inv (record s { locked = true }) qs
acquire-Inv inv at lock_run free =
    Inv-pass true inv at (ground arith) (omega arith) refl refl (omega arith) refl tt
acquire-Inv inv at lock_wait free =
    Inv-pass true inv at (ground arith) (omega arith) refl refl (omega arith) refl tt
acquire-Inv inv at (lock_add t) free =
    Inv-pass true inv at (ground arith) (omega arith) refl refl (omega arith) refl tt

pub release-Inv :
    {s : Shared} {p q : Pc} {ps qs : List Pc}
    → Inv s ps
    → At ps p q qs
    → Releases p q
    → Inv (record s { locked = false }) qs
release-Inv inv at unlock_stop = absurd (omega (arith, inv.served, le-weigh empty_handed at))
release-Inv inv at unlock_again = absurd (omega (arith, inv.served, le-weigh empty_handed at))
release-Inv inv at (unlock_run t) =
    Inv-pass false inv at (omega (arith, held-owners inv at refl refl)) (omega arith) refl refl
      (omega arith) refl tt
release-Inv inv at unlock_add =
    Inv-pass false inv at (omega (arith, held-owners inv at refl refl)) (omega arith) refl refl
      (omega arith) refl tt

-- Nobody sleeps while another thread stores.
none_sleeps :
    {s : Shared} {p q : Pc} {ps qs : List Pc}
    → Inv s ps
    → At ps p q qs
    → stores p ≡ 1
    → 0 < weigh sleeps ps
    → ⊥
none_sleeps {s} {ps} inv at storing_one sleep = omega (
  arith,
  weigh-le sleeps stores holds sleeps-holds ps,
  le-weigh stores at,
  inv.exclusive,
  owners-le s.locked,
)

-- A worker that finds the queue empty goes to sleep, with the mutex until it sleeps.
pub finds_none-Inv :
    {s : Shared} {ps qs : List Pc} → Inv s ps → At ps testing sleeping qs → s.tasks ≡ [] → Inv s qs
finds_none-Inv inv at none_left = record {
  exclusive = omega (arith, inv.exclusive, weigh-At holds at);
  supplied = omega (arith, inv.supplied, weigh-At about_to_pop at);
  served = omega (arith, inv.served, weigh-At empty_handed at);
  in_order = inv.in_order;
  attended = λ some_wait. rw none_left (omega arith);
  idle = λ some_sleep. rw none_left refl;
  fresh = AllFresh-At _ at tt inv.fresh;
}

pub waits-Inv :
    {s : Shared} {ps qs : List Pc}
    → Inv s ps
    → At ps sleeping waiting qs
    → Inv (record s { locked = false }) qs
waits-Inv inv at = record {
  exclusive = omega (arith, inv.exclusive, weigh-At holds at, held-owners inv at refl refl);
  supplied = omega (arith, inv.supplied, weigh-At about_to_pop at);
  served = omega (arith, inv.served, weigh-At empty_handed at);
  in_order = inv.in_order;
  attended = λ some_wait. omega (arith, inv.idle (omega (arith, le-weigh sleeps at)));
  idle = λ some_sleep. inv.idle (omega (arith, weigh-At sleeps at));
  fresh = AllFresh-At _ at tt inv.fresh;
}

pub goes_on-Inv :
    {s : Shared} {ps qs : List Pc} (t : Task) (ts : List Task)
    → Inv s ps
    → At ps testing popping qs
    → s.tasks ≡ t ∷ ts
    → Inv s qs
goes_on-Inv {s} {ps} t ts inv at e =
    let few = weigh-le tests about_to_pop holds tests-holds ps in
    let some_task : length s.tasks ≡ suc (length ts) = ap (λ q. length q) e in
    record {
      exclusive = omega (arith, inv.exclusive, weigh-At holds at);
      supplied = omega (
        arith,
        few,
        le-weigh tests at,
        inv.exclusive,
        owners-le s.locked,
        weigh-At about_to_pop at,
        some_task,
      );
      served = omega (arith, inv.served, weigh-At empty_handed at);
      in_order = inv.in_order;
      attended = λ some_wait.
          omega (arith, inv.attended (omega (arith, weigh-At is_waiting at)), weigh-At coming at);
      idle = λ some_sleep. inv.idle (omega (arith, weigh-At sleeps at));
      fresh = AllFresh-At _ at tt inv.fresh;
    }

-- `pop` writes what it left when it read, since no other thread wrote meanwhile.
pub pops-Inv :
    {s : Shared} {ps qs : List Pc} (t : Task) (ts : List Task)
    → Inv s ps
    → At ps (removing t ts) (unlocking (some t)) qs
    → Inv (record s { tasks = ts; taken = s.taken ++ t ∷ [] }) qs
pops-Inv {s} {ps} t ts inv at =
    let e = Fresh-At s.tasks at inv.fresh in
    let one_less : length s.tasks ≡ suc (length ts) = ap (λ q. length q) e in
    let order =
      append_assoc s.taken (t ∷ []) ts ∙ (ap (λ q. s.taken ++ q) (sym e) ∙ inv.in_order) in
    let alone : weigh holds ps ≤ 1 = omega (arith, inv.exclusive, owners-le s.locked) in
    Inv-step inv at (omega arith) (omega (arith, one_less)) refl order refl
      (omega (arith, one_less)) refl (λ sleep. absurd (omega (arith, inv.idle sleep, one_less)))
      (AllFresh-alone ts at refl alone tt)

pub pushes-Inv :
    {s : Shared} {ps qs : List Pc} (t : Task) (ts : List Task)
    → Inv s ps
    → At ps (storing t ts) leaving qs
    → Inv (record s { tasks = ts ++ t ∷ []; added = s.added ++ t ∷ [] }) qs
pushes-Inv {s} {ps} t ts inv at =
    let e : s.tasks ≡ ts = Fresh-At s.tasks at inv.fresh in
    let same : length s.tasks ≡ length ts = ap (λ q. length q) e in
    let one_more = length-append {0} ts (t ∷ []) in
    let order =
      ap (λ q. s.taken ++ (q ++ t ∷ [])) (sym e)
      ∙ (sym (append_assoc s.taken s.tasks (t ∷ [])) ∙ ap (λ q. q ++ t ∷ []) inv.in_order) in
    let alone : weigh holds ps ≤ 1 = omega (arith, inv.exclusive, owners-le s.locked) in
    Inv-step inv at (omega arith) (omega (arith, one_more, same)) refl order refl
      (omega (arith, one_more, same)) refl (λ sleep. absurd (none_sleeps inv at refl sleep))
      (AllFresh-alone (ts ++ t ∷ []) at refl alone tt)
