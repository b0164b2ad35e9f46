-- ===== src/Threadpool/Lifecycle.antt =====
-- `Threadpool_Create`, `Threadpool_Destroy` and `Threadpool_Addtask` as a caller sees them. The array
-- `threadmgr` is a list, in which `none` is an element that was not written yet.
use epoll_net.Base.{
  ℕ, ℤ, pos, minus_one, zero, suc, ◌+◌, ◌-◌, Option, none, some, List, [], ◌∷◌, ◌++◌, ◌==◌, ltb,
  if◌then◌else◌, get_elem?, length, replicate, inc32,
}
use epoll_net.Memory.{Ptr, null, Prog, pure, ◌>>◌}
use epoll_net.DataList.{Nodes}
use epoll_net.DataQueue
use epoll_net.DataQueue.{DataQueue}
use epoll_net.Lock
use epoll_net.Threadpool.{Task}

-- `struct tagThreadpool`; the mutex's object may be NULL.
pub record Threadpool : Type 0 where
  pub locker : Ptr
  pub threadmgr : List (Option ℕ)
  pub thread_count : ℕ

-- How `Threadpool_Destroy` ends: no pool or no signal (-1), a read behind `threadmgr` or of an element
-- that was not written, or 0 with the threads that were joined, oldest first.
pub data Destroyed : Type 0 where
  no_pool not_signalled out_of_bounds not_written : Destroyed
  joined : List ℕ → Destroyed

unfoldable pub join_at : Option (Option ℕ) → (ℕ → Destroyed) → Destroyed
join_at none k = out_of_bounds
join_at (some none) k = not_written
join_at (some (some id)) k = k id

-- `for (; i < thread_count; i++)` with the rounds left.
unfoldable pub join_all : List (Option ℕ) → ℕ → ℕ → List ℕ → Destroyed
unfolding join_at
join_all ids zero i done = joined done
join_all ids (suc n) i done =
    join_at (get_elem? ids i) (λ id. join_all ids n (i + 1) (done ++ id ∷ []))

-- `!signal`, whose -1 for no object passes for success.
unfoldable pub when_signalled : ℤ → Destroyed → Destroyed
when_signalled (pos zero) d = not_signalled
when_signalled _ d = d

-- `reply` is that of `pthread_cond_signal`.
unfoldable pub destroy : ℕ → Option Threadpool → Destroyed
unfolding join_all when_signalled
destroy reply none = no_pool
destroy reply (some pool) =
    when_signalled (Lock.signal pool.locker reply) (join_all pool.threadmgr pool.thread_count 0 [])

unfoldable pub store_id : List (Option ℕ) → ℕ → ℕ → List (Option ℕ)
store_id [] i id = []
store_id (_ ∷ ids) zero id = some id ∷ ids
store_id (x ∷ ids) (suc i) id = x ∷ store_id ids i id

-- How `Threadpool_Create` ends: NULL, NULL after `Threadpool_Destroy`, or a pool.
pub data Created : Type 0 where
  no_memory : Created
  given_up : Destroyed → Created
  created : Threadpool → Created

-- `start i` is the new thread of the i-th `pthread_create`, `none` if that fails.
module _ (start : ℕ → Option ℕ) (reply : ℕ) where
  unfoldable pub start_one : Option ℕ → ℕ → Threadpool → (Threadpool → Created) → Created
  unfolding destroy store_id
  start_one none i pool k = given_up (destroy reply (some pool))
  start_one (some id) i pool k = k (record pool {
    threadmgr = store_id pool.threadmgr i id;
    thread_count = inc32 pool.thread_count;
  })

  -- `for (; i < thread_count; ++i)` over the argument, with the rounds left.
  unfoldable pub start_all : ℕ → ℕ → Threadpool → Created
  unfolding start_one
  start_all zero i pool = created pool
  start_all (suc n) i pool = start_one (start i) i pool (λ pool'. start_all n (i + 1) pool')

  -- The addresses are what `malloc` returns for the pool, for `threadmgr` and for the mutex.
  unfoldable pub create : Ptr → Ptr → Ptr → ℕ → Created
  unfolding start_all
  create pool ids locker n =
      if pool == null
      then no_memory
      else if ids == null
      then no_memory
      else start_all n 0
          (record { locker = locker; threadmgr = replicate n none; thread_count = n })

-- How `Threadpool_Addtask` ends: -1, a write behind the task's name, or 0 with the tasks now queued.
pub data AddedTask : Type 0 where
  refused name_too_long : AddedTask
  queued : List Task → AddedTask

abbrev pub name_bytes : ℕ
name_bytes = 125

-- `task` is what `malloc` returns; `name` has no 0 in it.
unfoldable pub add_task : Option (List Task) → Ptr → Ptr → Ptr → List ℕ → AddedTask
add_task none task cb arg name = refused
add_task (some tasks) task cb arg name =
    if cb == null
    then refused
    else if task == null
    then refused
    else if ltb name_bytes (length name)
    then name_too_long
    else queued (
        tasks
        ++ record { cb = cb; arg = arg; name = name ++ replicate (name_bytes - length name) 0 }
          ∷ [])

-- `Threadpool_Free` of a pool with this array, queue and mutex, but for the memory of the first and of the
-- pool itself: -1 or 0. What clearing the mutex returns is ignored.
unfoldable pub free_pool : ℕ → Option (Ptr × Option DataQueue) → Prog Nodes ℤ
free_pool fuel none = pure minus_one
free_pool fuel (some (ids, queue)) =
    if ids == null then pure (pos 0) else do DataQueue.clear fuel queue; pure (pos 0)
