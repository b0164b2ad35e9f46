-- ===== src/Lock.antt =====
-- lock.c: a mutex, a condition and a semaphore in one object. What the system's functions return (0 for
-- success) is an argument; what they do with threads is in the steps of Threadpool.
use epoll_net.Base.{ℕ, ℤ, pos, minus_one, Option, none, some, ◌==◌, if◌then◌else◌}
use epoll_net.Memory.{Ptr, null}

-- `LockerInterface`, without its table of functions.
pub record LockerInterface : Type 0 where
  pub locker : Ptr

-- `locker_init`: what `malloc` returns. The semaphore starts at 0.
unfoldable pub init : Ptr → Ptr
init locker = locker

unfoldable pub create : Ptr → Ptr → Option LockerInterface
unfolding init
create interface locker = if interface == null then none else some (record { locker = init locker })

-- -1 for no object.
unfoldable pub checked : Ptr → ℤ → ℤ
checked locker result = if locker == null then minus_one else result

-- `call(...) == 0`
abbrev pub truth : ℕ → ℤ
truth reply = if reply == 0 then pos 1 else pos 0

module _ (locker : Ptr) (reply : ℕ) where
  unfoldable pub lock : ℤ
  unfolding checked
  lock = checked locker (truth reply)

  unfoldable pub unlock : ℤ
  unfolding checked
  unlock = checked locker (truth reply)

  unfoldable pub sem_wait : ℤ
  unfolding checked
  sem_wait = checked locker (truth reply)

  unfoldable pub post : ℤ
  unfolding checked
  post = checked locker (truth reply)

  -- The system's number itself: 0 for success.
  unfoldable pub cond_wait : ℤ
  unfolding checked
  cond_wait = checked locker (pos reply)

  unfoldable pub signal : ℤ
  unfolding checked
  signal = checked locker (truth reply)

  unfoldable pub signal_all : ℤ
  unfolding checked
  signal_all = checked locker (truth reply)

-- The three destroying calls' results are ignored.
unfoldable pub free_locker : Ptr → ℤ
unfolding checked
free_locker locker = checked locker (pos 0)

unfoldable pub clear : Ptr → ℤ
unfolding checked
clear locker = checked locker (pos 0)

-- `LockerInterface_Destory`, but for the memory of the table: what `clear` returns, which is ignored, and
-- `none` where it is not called.
unfoldable pub destroy : Option LockerInterface → Option ℤ
unfolding clear
destroy none = none
destroy (some i) = some (clear i.locker)
