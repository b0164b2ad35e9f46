-- ===== src/Threadpool/Snapshots.antt =====
-- What a thread has and does where it stands: the mutex, a look at the queue, and what it found there.
use epoll_net.Base.{ℕ, ◌+◌, ◌≤◌, ◌≡◌, none, List, [], ◌∷◌, arith}
use epoll_net.Threadpool.{
  Pc, Task, locking, testing, sleeping, failing, removing, storing, waiting, woken, popping,
  stopped, unlocking, running, adding, pushing, leaving, signalling, away,
}
use epoll_net.Threads.{At, here, there, weigh, le-weigh}

-- The threads that hold the mutex, those of them at the test, before `cwait`, inside `push` and in front
-- of or inside `pop`, those that have or get nothing from `pop`, and those that will look at the queue
-- or are about to signal.
abbrev pub holds : Pc → ℕ
holds testing = 1
holds sleeping = 1
holds popping = 1
holds (removing t ts) = 1
holds (storing t ts) = 1
holds (unlocking t) = 1
holds (pushing t) = 1
holds leaving = 1
holds _ = 0

abbrev pub tests : Pc → ℕ
tests testing = 1
tests _ = 0

abbrev pub sleeps : Pc → ℕ
sleeps sleeping = 1
sleeps _ = 0

abbrev pub stores : Pc → ℕ
stores (storing t ts) = 1
stores _ = 0

abbrev pub about_to_pop : Pc → ℕ
about_to_pop popping = 1
about_to_pop (removing t ts) = 1
about_to_pop _ = 0

abbrev pub empty_handed : Pc → ℕ
empty_handed (unlocking none) = 1
empty_handed failing = 1
empty_handed stopped = 1
empty_handed _ = 0

abbrev pub coming : Pc → ℕ
coming locking = 1
coming testing = 1
coming woken = 1
coming popping = 1
coming (removing t ts) = 1
coming leaving = 1
coming signalling = 1
coming _ = 0

pub tests-holds : (p : Pc) → tests p + about_to_pop p ≤ holds p
tests-holds locking = omega arith
tests-holds testing = omega arith
tests-holds sleeping = omega arith
tests-holds failing = omega arith
tests-holds (removing t ts) = omega arith
tests-holds (storing t ts) = omega arith
tests-holds waiting = omega arith
tests-holds woken = omega arith
tests-holds popping = omega arith
tests-holds stopped = omega arith
tests-holds (unlocking t) = omega arith
tests-holds (running t) = omega arith
tests-holds (adding t) = omega arith
tests-holds (pushing t) = omega arith
tests-holds leaving = omega arith
tests-holds signalling = omega arith
tests-holds away = omega arith

pub sleeps-holds : (p : Pc) → sleeps p + stores p ≤ holds p
sleeps-holds locking = omega arith
sleeps-holds testing = omega arith
sleeps-holds sleeping = omega arith
sleeps-holds failing = omega arith
sleeps-holds (removing t ts) = omega arith
sleeps-holds (storing t ts) = omega arith
sleeps-holds waiting = omega arith
sleeps-holds woken = omega arith
sleeps-holds popping = omega arith
sleeps-holds stopped = omega arith
sleeps-holds (unlocking t) = omega arith
sleeps-holds (running t) = omega arith
sleeps-holds (adding t) = omega arith
sleeps-holds (pushing t) = omega arith
sleeps-holds leaving = omega arith
sleeps-holds signalling = omega arith
sleeps-holds away = omega arith

-- What a thread inside `push` or `pop` found is still what is queued.
abbrev pub Fresh : List Task → Pc → Type 0
Fresh q (removing t ts) = q ≡ t ∷ ts
Fresh q (storing t ts) = q ≡ ts
Fresh q _ = Unit {0}

abbrev pub AllFresh : List Task → List Pc → Type 0
AllFresh q [] = Unit {0}
AllFresh q (p ∷ ps) = Fresh q p × AllFresh q ps

pub Fresh-At :
    (q : List Task) {p p' : Pc} {ps qs : List Pc} → At ps p p' qs → AllFresh q ps → Fresh q p
Fresh-At q here (f, all) = f
Fresh-At q (there at) (f, all) = Fresh-At q at all

pub AllFresh-At :
    (q : List Task) {p p' : Pc} {ps qs : List Pc}
    → At ps p p' qs
    → Fresh q p'
    → AllFresh q ps
    → AllFresh q qs
AllFresh-At q here new (f, all) = (new, all)
AllFresh-At q (there at) new (f, all) = (f, AllFresh-At q at new all)

-- A thread that does not hold the mutex found nothing.
Fresh-free : (q : List Task) (p : Pc) → holds p ≡ 0 → Fresh q p
Fresh-free q (removing t ts) h = absurd (omega (arith, h))
Fresh-free q (storing t ts) h = absurd (omega (arith, h))
Fresh-free q locking h = tt
Fresh-free q testing h = tt
Fresh-free q sleeping h = tt
Fresh-free q failing h = tt
Fresh-free q waiting h = tt
Fresh-free q woken h = tt
Fresh-free q popping h = tt
Fresh-free q stopped h = tt
Fresh-free q (unlocking t) h = tt
Fresh-free q (running t) h = tt
Fresh-free q (adding t) h = tt
Fresh-free q (pushing t) h = tt
Fresh-free q leaving h = tt
Fresh-free q signalling h = tt
Fresh-free q away h = tt

pub AllFresh-free : (q : List Task) (ps : List Pc) → weigh holds ps ≡ 0 → AllFresh q ps
unfolding weigh
AllFresh-free q [] h = tt
AllFresh-free q (p ∷ ps) h =
    (Fresh-free q p (omega (arith, h)), AllFresh-free q ps (omega (arith, h)))

-- The one thread that holds the mutex writes the queue.
pub AllFresh-alone :
    (q : List Task) {p p' : Pc} {ps qs : List Pc}
    → At ps p p' qs
    → holds p ≡ 1
    → weigh holds ps ≤ 1
    → Fresh q p'
    → AllFresh q qs
unfolding weigh
AllFresh-alone q (here {ps = ps}) has alone new =
    (new, AllFresh-free q ps (omega (arith, has, alone)))
AllFresh-alone q (there {r = r} at) has alone new =
    let some_holder = le-weigh holds at in
    (
      Fresh-free q r (omega (arith, some_holder, has, alone)),
      AllFresh-alone q at has (omega (arith, alone)) new,
    )
