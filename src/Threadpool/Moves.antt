-- ===== src/Threadpool/Moves.antt =====
-- The steps of a thread as a relation, for proofs by cases.
use epoll_net.Base.{
  ◌≡◌, refl, sym, subst, true, false, Option, none, some, List, [], ◌∷◌, ◌++◌, if◌then◌else◌,
  Bool-cases, inl, inr,
}
use epoll_net.Threadpool.{
  Task, Shared, Pc, locking, testing, sleeping, waiting, failing, removing, storing, woken, popping,
  stopped, unlocking, running, adding, pushing, leaving, signalling, away, advance, acquire, test,
  take_task,
}

pub data Acquires : Pc → Pc → Type 0 where
  lock_run : Acquires locking testing
  lock_wait : Acquires woken testing
  lock_add : (t : Task) → Acquires (adding t) (pushing t)

pub data Releases : Pc → Pc → Type 0 where
  unlock_stop : Releases (unlocking none) failing
  unlock_again : Releases failing stopped
  unlock_run : (t : Task) → Releases (unlocking (some t)) (running t)
  unlock_add : Releases leaving signalling

pub data Move (s : Shared) : Pc → Pc → Shared → Type 0 where
  takes : {p q : Pc} → Acquires p q → s.locked ≡ false → Move s p q (record s { locked = true })
  gives : {p q : Pc} → Releases p q → Move s p q (record s { locked = false })
  finds_none : s.tasks ≡ [] → Move s testing sleeping s
  waits : Move s sleeping waiting (record s { locked = false })
  goes_on : (t : Task) (ts : List Task) → s.tasks ≡ t ∷ ts → Move s testing popping s
  pops_null : s.tasks ≡ [] → Move s popping (unlocking none) s
  reads_first : (t : Task) (ts : List Task) → s.tasks ≡ t ∷ ts → Move s popping (removing t ts) s
  pops :
      (t : Task) (ts : List Task)
      → Move s
          (removing t ts)
          (unlocking (some t))
          (record s { tasks = ts; taken = s.taken ++ t ∷ [] })
  returns : (t : Task) → Move s (running t) locking s
  reads_all : (t : Task) → Move s (pushing t) (storing t s.tasks) s
  pushes :
      (t : Task) (ts : List Task)
      → Move s (storing t ts) leaving (record s { tasks = ts ++ t ∷ []; added = s.added ++ t ∷ [] })

abbrev Moves : Shared → Pc → Option (Pc × Shared) → Type 0
Moves s p none = Unit {0}
Moves s p (some (q, t)) = Move s p q t

acquire-Moves : (s : Shared) (p q : Pc) → Acquires p q → Moves s p (acquire q s)
unfolding acquire
acquire-Moves s p q a = elim (Bool-cases s.locked) [
  | inl held ↦
      subst (λ b. Moves s p (if b then none else some (q, record s { locked = true }))) (sym held)
        tt
  | inr free ↦
      subst (λ b. Moves s p (if b then none else some (q, record s { locked = true }))) (sym free)
        (takes a free)
]

test-Moves : (s : Shared) (ts : List Task) → s.tasks ≡ ts → Moves s testing (test ts s)
unfolding test
test-Moves s [] e = finds_none e
test-Moves s (t ∷ ts) e = goes_on t ts e

take_task-Moves : (s : Shared) (ts : List Task) → s.tasks ≡ ts → Moves s popping (take_task ts s)
unfolding take_task
take_task-Moves s [] e = pops_null e
take_task-Moves s (t ∷ ts) e = reads_first t ts e

advance-Moves : (s : Shared) (p : Pc) → Moves s p (advance p s)
unfolding advance
advance-Moves s locking = acquire-Moves s locking testing lock_run
advance-Moves s testing = test-Moves s s.tasks refl
advance-Moves s sleeping = waits
advance-Moves s waiting = tt
advance-Moves s woken = acquire-Moves s woken testing lock_wait
advance-Moves s popping = take_task-Moves s s.tasks refl
advance-Moves s (removing t ts) = pops t ts
advance-Moves s (unlocking none) = gives unlock_stop
advance-Moves s (unlocking (some t)) = gives (unlock_run t)
advance-Moves s (running t) = returns t
advance-Moves s failing = gives unlock_again
advance-Moves s stopped = tt
advance-Moves s (adding t) = acquire-Moves s (adding t) (pushing t) (lock_add t)
advance-Moves s (pushing t) = reads_all t
advance-Moves s (storing t ts) = pushes t ts
advance-Moves s leaving = gives unlock_add
advance-Moves s signalling = tt
advance-Moves s away = tt

pub advance-Move : {s t : Shared} {p q : Pc} → advance p s ≡ some (q, t) → Move s p q t
advance-Move {s} {t} {p} {q} e = subst (Moves s p) e (advance-Moves s p)
