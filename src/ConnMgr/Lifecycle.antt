-- ===== src/ConnMgr/Lifecycle.antt =====
-- `ConnMgr_Create` and `init_limit` of connmgr.c: the pool with its queue and its lock, and the limit of
-- the stack, which is raised to 258 MB where it is lower.
use epoll_net.Base.{ℕ, ◌*◌, Bool, Option, none, some, List, [], ◌∷◌, ltb, ◌==◌, if◌then◌else◌}
use epoll_net.Memory.{Ptr, null}
use epoll_net.Lock
use epoll_net.Lock.{LockerInterface}
use epoll_net.DataQueue.Interface
use epoll_net.DataQueue.Interface.{DataQueueInterface}

-- `STACKSIZE`
abbrev pub stack_size : ℕ
stack_size = 258 * 1024 * 1024

-- What the three calls reply: `rlim_cur` of the two `getrlimit`, `none` where it fails, and whether
-- `setrlimit` with this limit succeeds.
pub record Limits : Type 0 where
  pub before : Option ℕ
  pub raised : ℕ → Bool
  pub after : Option ℕ

-- How `init_limit` ends: `exit(1)`, or 0 with the limits that were set and printed.
pub data Limited : Type 0 where
  exited : Limited
  limited : (asked printed : List ℕ) → Limited

-- The second `getrlimit`, with what was set and printed so far.
unfoldable pub check_limit : Option ℕ → List ℕ → ℕ → Limited
check_limit none asked begin = exited
check_limit (some cur) asked begin = limited asked (begin ∷ cur ∷ [])

unfoldable pub raise_limit : Limits → ℕ → Limited
unfolding check_limit
raise_limit l cur =
    if ltb cur stack_size
    then if l.raised stack_size then check_limit l.after (stack_size ∷ []) cur else exited
    else check_limit l.after [] cur

unfoldable pub init_limit : Limits → Limited
unfolding raise_limit
init_limit l = elim (l.before) [ none ↦ exited | some cur ↦ raise_limit l cur ]

-- `struct tagConntMgr`; its three functions are those of ConnMgr.
pub record ConnMgr : Type 0 where
  pub locker_interface : Option LockerInterface
  pub queue_interface : Option DataQueueInterface

-- What `malloc` returns for the pool, its queue and its lock.
pub record Fresh : Type 0 where
  pub connmgr : Ptr
  pub queue_interface : Ptr
  pub queue : Ptr
  pub list : Ptr
  pub locker_interface : Ptr
  pub locker : Ptr

unfoldable pub new_pool : Fresh → Option ConnMgr
new_pool f =
    if f.connmgr == null
    then none
    else some (record {
      locker_interface = Lock.create f.locker_interface f.locker;
      queue_interface = Interface.create f.queue_interface f.queue f.list;
    })

-- `none` is an exit; the limit is raised also when there was no memory for the pool.
unfoldable pub create : Fresh → Limits → Option (Option ConnMgr)
unfolding new_pool init_limit
create f l = elim (init_limit l) [ exited ↦ none | limited asked printed ↦ some (new_pool f) ]
