-- ===== src/Server/Workers/Moves.antt =====
-- The steps of one thread as a relation, for proofs by cases.
use epoll_net.Base.{
  zero, suc, ◌+◌, ◌≡◌, refl, sym, subst, true, false, Option, none, some, List, [], ◌∷◌, ◌++◌,
  if◌then◌else◌, Bool-cases, inl, inr, ℕ,
}
use epoll_net.World.{Item}
use epoll_net.Server.Workers.{
  Shared, Pc, waiting, sizing, locking, popping, stopped, unlocking, handling, adding, pushing,
  leaving, posting, polling, advance, acquire, wait_post, test_size, pop_item,
}

pub data Acquires : Pc → Pc → Type 0 where
  lock_pop : Acquires locking popping
  lock_push : (i : Item) → Acquires (adding i) (pushing i)

pub data Releases : Pc → Pc → Type 0 where
  unlock_stop : Releases (unlocking none) stopped
  unlock_handle : (i : Item) → Releases (unlocking (some i)) (handling i)
  unlock_post : Releases leaving posting

pub data Move (s : Shared) : Pc → Pc → Shared → Type 0 where
  takes : {p q : Pc} → Acquires p q → s.locked ≡ false → Move s p q (record s { locked = true })
  gives : {p q : Pc} → Releases p q → Move s p q (record s { locked = false })
  passes : (n : ℕ) → s.posts ≡ suc n → Move s waiting sizing (record s { posts = n })
  finds_none : s.items ≡ [] → Move s sizing waiting s
  finds : (i : Item) (is : List Item) → s.items ≡ i ∷ is → Move s sizing locking s
  pops_null : s.items ≡ [] → Move s popping (unlocking none) s
  pops :
      (i : Item) (is : List Item)
      → s.items ≡ i ∷ is
      → Move s popping (unlocking (some i)) (record s { items = is; taken = s.taken ++ i ∷ [] })
  handles : (i : Item) → Move s (handling i) waiting (record s { done = s.done ++ i ∷ [] })
  pushes :
      (i : Item)
      → Move s
          (pushing i)
          leaving
          (record s { items = s.items ++ i ∷ []; queued = s.queued ++ i ∷ [] })
  posts : Move s posting polling (record s { posts = s.posts + 1 })

abbrev Moves : Shared → Pc → Option (Pc × Shared) → Type 0
Moves s p none = Unit {0}
Moves s p (some (q, t)) = Move s p q t

acquire-Moves : (s : Shared) (p q : Pc) → Acquires p q → Moves s p (acquire q s)
unfolding acquire
acquire-Moves s p q a = elim (Bool-cases s.locked) [
  | inl held ↦
      subst (λ b. Moves s p (if b then none else some (q, record s { locked = true }))) (sym held)
        tt
  | inr free ↦
      subst (λ b. Moves s p (if b then none else some (q, record s { locked = true }))) (sym free)
        (takes a free)
]

wait_post-Moves : (s : Shared) (n : ℕ) → s.posts ≡ n → Moves s waiting (wait_post n s)
unfolding wait_post
wait_post-Moves s zero e = tt
wait_post-Moves s (suc n) e = passes n e

test_size-Moves : (s : Shared) (is : List Item) → s.items ≡ is → Moves s sizing (test_size is s)
unfolding test_size
test_size-Moves s [] e = finds_none e
test_size-Moves s (i ∷ is) e = finds i is e

pop_item-Moves : (s : Shared) (is : List Item) → s.items ≡ is → Moves s popping (pop_item is s)
unfolding pop_item
pop_item-Moves s [] e = pops_null e
pop_item-Moves s (i ∷ is) e = pops i is e

advance-Moves : (s : Shared) (p : Pc) → Moves s p (advance p s)
unfolding advance
advance-Moves s waiting = wait_post-Moves s s.posts refl
advance-Moves s sizing = test_size-Moves s s.items refl
advance-Moves s locking = acquire-Moves s locking popping lock_pop
advance-Moves s popping = pop_item-Moves s s.items refl
advance-Moves s (unlocking none) = gives unlock_stop
advance-Moves s (unlocking (some i)) = gives (unlock_handle i)
advance-Moves s (handling i) = handles i
advance-Moves s stopped = tt
advance-Moves s (adding i) = acquire-Moves s (adding i) (pushing i) (lock_push i)
advance-Moves s (pushing i) = pushes i
advance-Moves s leaving = gives unlock_post
advance-Moves s posting = posts
advance-Moves s polling = tt

pub advance-Move : {s t : Shared} {p q : Pc} → advance p s ≡ some (q, t) → Move s p q t
advance-Move {s} {t} {p} {q} e = subst (Moves s p) e (advance-Moves s p)
