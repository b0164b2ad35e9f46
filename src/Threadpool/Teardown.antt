-- ===== src/Threadpool/Teardown.antt =====
-- What becomes of `threadmgr`: `Threadpool_Create` counts every thread twice.
use epoll_net.Base.{
  ℕ, zero, suc, ◌+◌, ◌-◌, ◌^◌, ◌<◌, ◌≡◌, ◌≢◌, refl, sym, ap, subst, ◌∙◌, Option, none, some, List,
  [], ◌∷◌, ◌++◌, map, ◌==◌, ==_false, inl, inr, arith, get_elem?, length, length-append, replicate,
  inc32, Bool-cases,
}
use epoll_net.Memory.{Ptr, null}
use epoll_net.Lock
use epoll_net.Threadpool.Lifecycle.{
  Threadpool, Destroyed, out_of_bounds, not_written, join_at, join_all, when_signalled, destroy,
  store_id, given_up, created, start_one, start_all, create,
}

-- The array with these threads written, and as many elements not written.
abbrev pub filled : List ℕ → ℕ → List (Option ℕ)
filled ids n = map some ids ++ replicate n none

store_id-filled :
    (ids : List ℕ) (n id : ℕ)
    → store_id (filled ids (suc n)) (length ids) id ≡ filled (ids ++ id ∷ []) n
unfolding store_id
store_id-filled [] n id = refl
store_id-filled (x ∷ ids) n id = ap (λ t. some x ∷ t) (store_id-filled ids n id)

-- A signal that the system takes, or that is not even tried, lets `Threadpool_Destroy` go on.
signalled : (locker : Ptr) (d : Destroyed) → when_signalled (Lock.signal locker 0) d ≡ d
unfolding when_signalled Lock.signal
signalled locker d = elim (Bool-cases (locker == null)) [ inl e ↦ rw e refl | inr e ↦ rw e refl ]

get_elem?-append :
    (ids : List ℕ) (rest : List (Option ℕ))
    → get_elem? (map some ids ++ rest) (length ids) ≡ get_elem? rest 0
get_elem?-append [] rest = refl
get_elem?-append (x ∷ ids) rest = get_elem?-append ids rest

shift :
    (before : List ℕ) (x : ℕ) (rest : List (Option ℕ))
    → map some before ++ some x ∷ rest ≡ map some (before ++ x ∷ []) ++ rest
shift [] x rest = refl
shift (y ∷ before) x rest = ap (λ t. some y ∷ t) (shift before x rest)

-- More rounds than there are threads: the joins end at the element behind the last thread.
join_stop :
    (ids before : List ℕ) (tail : List (Option ℕ)) (n : ℕ) (done : List ℕ) (d : Destroyed)
    → length ids < n
    → ((k : ℕ → Destroyed) → join_at (get_elem? tail 0) k ≡ d)
    → join_all (map some before ++ (map some ids ++ tail)) n (length before) done ≡ d
unfolding join_all
join_stop ids before tail zero done d less stuck = absurd (omega arith)
join_stop [] before tail (suc n) done d less stuck = rw (get_elem?-append before tail) (stuck _)
join_stop (x ∷ ids) before tail (suc n) done d less stuck =
    let next = join_stop ids (before ++ x ∷ []) tail n (done ++ x ∷ []) d (omega arith) stuck in
    let at : length (before ++ x ∷ []) ≡ length before + 1 = length-append before (x ∷ []) in
    let here = get_elem?-append before (some x ∷ (map some ids ++ tail)) in
    let next' =
      subst
        (λ j.
          join_all (map some (before ++ x ∷ []) ++ (map some ids ++ tail)) n j (done ++ x ∷ []) ≡ d)
        at next in
    rw here (
      subst (λ q. join_all q n (length before + 1) (done ++ x ∷ []) ≡ d)
        (sym (shift before x (map some ids ++ tail))) next')

module _ (start : ℕ → Option ℕ) (reply : ℕ) (locker : Ptr) where
  -- A pool while its threads are started.
  abbrev pub begun : List ℕ → ℕ → ℕ → Threadpool
  begun ids rest count = record {
    locker = locker;
    threadmgr = filled ids rest;
    thread_count = count;
  }

  start_all-next :
      (n count id : ℕ) (ids : List ℕ)
      → start (length ids) ≡ some id
      → count + 1 < 2 ^ 32
      → start_all start reply (suc n) (length ids) (begun ids (suc n) count)
        ≡ start_all start reply n (length (ids ++ id ∷ [])) (begun (ids ++ id ∷ []) n (count + 1))
  unfolding start_all start_one
  start_all-next n count id ids ok small =
      let at : length (ids ++ id ∷ []) ≡ length ids + 1 = length-append ids (id ∷ []) in
      let counted : inc32 count ≡ count + 1 = omega arith in
      rw (ok, store_id-filled ids n id, counted, at) refl

  -- `k` threads are started.
  start_all-run :
      (k n m count : ℕ) (ids : List ℕ)
      → n ≡ k + m
      → ((j : ℕ) → j < k → (id : ℕ) × (start (length ids + j) ≡ some id))
      → count + k < 2 ^ 32
      → (ids' : List ℕ) × (length ids' ≡ length ids + k)
        × (start_all start reply n (length ids) (begun ids n count)
            ≡ start_all start reply m (length ids') (begun ids' m (count + k)))
  start_all-run zero n m count ids e ok small =
      let n_is : n ≡ m = omega arith in
      let same : count + 0 ≡ count = omega arith in (ids, omega arith, rw (n_is, same) refl)
  start_all-run (suc k) zero m count ids e ok small = absurd (omega arith)
  start_all-run (suc k) (suc n) m count ids e ok small =
      let (id, got) = ok 0 (omega arith) in
      let got' : start (length ids) ≡ some id = subst (λ j. start j ≡ some id) (omega arith) got in
      let at : length (ids ++ id ∷ []) ≡ length ids + 1 = length-append ids (id ∷ []) in
      let ok' : (j : ℕ) → j < k → (id' : ℕ) × (start (length (ids ++ id ∷ []) + j) ≡ some id') =
        λ j lt.
          subst (λ q. (id' : ℕ) × (start q ≡ some id')) (omega (arith, at))
            (ok (suc j) (omega arith)) in
      let (ids', long, rest) =
        start_all-run k n m (count + 1) (ids ++ id ∷ []) (omega arith) ok' (omega arith) in
      let sum : count + 1 + k ≡ count + suc k = omega arith in
      (
        ids',
        omega (arith, long, at),
        start_all-next n count id ids got' (omega arith)
            ∙ subst
                (λ q.
                  start_all start reply n (length (ids ++ id ∷ []))
                    (begun (ids ++ id ∷ []) n (count + 1))
                  ≡ start_all start reply m (length ids') (begun ids' m q))
                sum rest,
      )

-- A pool of one thread or more, all of which start, counts them twice; when it is destroyed and the
-- signal succeeds, joining goes on behind the end of `threadmgr`. Twice the number is below 2^32.
pub destroy-create :
    (start : ℕ → Option ℕ) (reply : ℕ) (pool ids locker : Ptr) (n : ℕ)
    → pool ≢ null
    → ids ≢ null
    → 0 < n
    → n + n < 2 ^ 32
    → ((i : ℕ) → i < n → (id : ℕ) × (start i ≡ some id))
    → (made : Threadpool) × (create start reply pool ids locker n ≡ created made)
      × (made.thread_count ≡ n + n)
      × (destroy 0 (some made) ≡ out_of_bounds)
unfolding create start_all destroy
destroy-create start reply pool ids locker n ne ne' some_threads small ok =
    let ok' : (j : ℕ) → j < n → (id : ℕ) × (start (0 + j) ≡ some id) =
      λ j lt. subst (λ q. (id : ℕ) × (start q ≡ some id)) (omega arith) (ok j lt) in
    let (ids', long, run) = start_all-run start reply locker n n 0 n [] (omega arith) ok' small in
    let less : length ids' < n + n = omega (arith, long) in
    (
      begun start reply locker ids' 0 (n + n),
      rw (==_false pool null ne, ==_false ids null ne') run,
      refl,
      signalled locker (join_all (filled ids' 0) (n + n) 0 [])
          ∙ join_stop ids' [] [] (n + n) [] out_of_bounds less (λ k. refl),
    )

-- A pool of which a later thread does not start is destroyed at once, and joining reads an element of
-- `threadmgr` that was not written. The signal succeeds, and twice the number is below 2^32.
pub create-not_written :
    (start : ℕ → Option ℕ) (pool ids locker : Ptr) (n k : ℕ)
    → pool ≢ null
    → ids ≢ null
    → k < n
    → n + n < 2 ^ 32
    → ((i : ℕ) → i < k → (id : ℕ) × (start i ≡ some id))
    → start k ≡ none
    → create start 0 pool ids locker n ≡ given_up not_written
unfolding create start_all start_one destroy
create-not_written start pool ids locker n k ne ne' less small ok fails =
    let ok' : (j : ℕ) → j < k → (id : ℕ) × (start (0 + j) ≡ some id) =
      λ j lt. subst (λ q. (id : ℕ) × (start q ≡ some id)) (omega arith) (ok j lt) in
    let m = n - k - 1 in
    let rest : n ≡ k + suc m = omega arith in
    let (ids', long, run) = start_all-run start 0 locker k n (suc m) n [] rest ok' (omega arith) in
    let fails' : start (length ids') ≡ none =
      subst (λ j. start j ≡ none) (omega (arith, long)) fails in
    let stop =
      signalled locker (join_all (filled ids' (suc m)) (n + k) 0 [])
      ∙ join_stop ids' [] (none ∷ replicate m none) (n + k) [] not_written (omega (arith, long))
          (λ k. refl) in
    rw (==_false pool null ne, ==_false ids null ne', run, fails') (ap given_up stop)
