-- ===== src/ConnMgr/Linked/Creation.antt =====
-- The pool that `ConnMgr_Create` makes, from its first call on.
use epoll_net.Base.{Option, some, List, [], ◌≡◌, ◌≢◌, refl, ==_false}
use epoll_net.Memory.{null}
use epoll_net.Memory.Agrees.{Agrees}
use epoll_net.World.{World}
use epoll_net.Lock
use epoll_net.DataList
use epoll_net.DataList.{DataList, Nodes}
use epoll_net.DataList.Chain.{Cells, IsList}
use epoll_net.DataQueue
use epoll_net.DataQueue.{DataQueue}
use epoll_net.DataQueue.Interface
use epoll_net.DataQueue.Interface.{DataQueueInterface, tabled}
use epoll_net.DataQueue.Refine.{IsQueue}
use epoll_net.DataQueue.Laws.{linked}
use epoll_net.ConnMgr.Lifecycle.{ConnMgr, Fresh, new_pool}
use epoll_net.ConnMgr.Linked.{Call, run, run_listed, Allocated}
use epoll_net.ConnMgr.Linked.Agreement.{Same, run-Agrees}

abbrev empty_list : DataList
empty_list = record { head = null; tail = null; count = 0 }

empty-IsList : (h : Nodes) → IsList h empty_list []
empty-IsList h = record {
  links = tt;
  distinct = tt;
  head_is = refl;
  tail_is = refl;
  count_is = refl;
}

abbrev empty_queue : DataQueue
empty_queue = record { list = some empty_list }

empty-IsQueue : (h : Nodes) → IsQueue h empty_queue []
empty-IsQueue h = record { handle = empty_list; has_list = refl; is_list = empty-IsList h }

-- A pool has this queue.
abbrev pub HasQueue : Option ConnMgr → DataQueue → Type 0
HasQueue m q =
    (pool : ConnMgr) × (i : DataQueueInterface) × (m ≡ some pool)
    × (pool.queue_interface ≡ some i)
    × (i.queue ≡ some q)

new_pool-HasQueue :
    (f : Fresh)
    → f.connmgr ≢ null
    → f.queue_interface ≢ null
    → f.queue ≢ null
    → f.list ≢ null
    → HasQueue (new_pool f) empty_queue
unfolding new_pool Interface.create DataQueue.init DataList.create
new_pool-HasQueue f pool interface queue list =
    rw
      (
        ==_false f.connmgr null pool,
        ==_false f.queue_interface null interface,
        ==_false f.queue null queue,
        ==_false f.list null list,
      )
      (
        record {
          locker_interface = Lock.create f.locker_interface f.locker;
          queue_interface = some (tabled (some empty_queue));
        },
        tabled (some empty_queue),
        refl,
        refl,
        refl,
      )

-- `ConnMgr_Create` with all its memory gives a pool with a queue on which any sequence of `setConn` and
-- `getConn` ends as it does on an empty pool as a list of objects: it returns the same objects and leaves
-- the same ones in memory and in the pool, and it crashes or runs on where that does. `malloc` gives the
-- nodes of the queue addresses that are not in use.
pub run-new_pool :
    (f : Fresh) (calls : List Call) (w : World) (h : Nodes)
    → f.connmgr ≢ null
    → f.queue_interface ≢ null
    → f.queue ≢ null
    → f.list ≢ null
    → w.pool ≡ []
    → Allocated [] calls
    → (q : DataQueue) × HasQueue (new_pool f) q
      × Agrees
          (λ _ w' s'. (left : Cells) × Same linked left w' s')
          (run_listed calls w)
          (run linked calls (record { conns = w.conns; memory = h; queue = q }))
run-new_pool f calls w h pool interface queue list empty alloc = (
  empty_queue,
  new_pool-HasQueue f pool interface queue list,
  run-Agrees linked calls
      (record { same_conns = refl; stands = empty-IsQueue h; pool_is = empty; objects = tt }) alloc,
)
