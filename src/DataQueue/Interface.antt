-- ===== src/DataQueue/Interface.antt =====
-- `DataQueueInterface` of queue.c: a queue with the table of its functions.
use epoll_net.Base.{ℕ, Option, none, some, ◌==◌, if◌then◌else◌}
use epoll_net.Memory.{Ptr, null, Prog, pure}
use epoll_net.DataList.{Nodes}
use epoll_net.DataQueue
use epoll_net.DataQueue.{DataQueue}

pub record DataQueueInterface : Type 0 where
  pub queue : Option DataQueue
  pub push : Ptr → DataQueue → Ptr → Prog Nodes DataQueue
  pub pop : DataQueue → Prog Nodes (Ptr × DataQueue)
  pub size : DataQueue → Prog Nodes ℕ
  pub clear : ℕ → Option DataQueue → Prog Nodes (Unit {0})

abbrev pub tabled : Option DataQueue → DataQueueInterface
tabled q = record {
  queue = q;
  push = DataQueue.push;
  pop = DataQueue.pop;
  size = DataQueue.size;
  clear = DataQueue.clear;
}

-- The addresses are what `malloc` returns for the table, the queue and the list.
unfoldable pub create : Ptr → Ptr → Ptr → Option DataQueueInterface
create interface queue list =
    if interface == null then none else some (tabled (DataQueue.init queue list))

-- `DataQueueInterface_Destory`, but for the memory of the table.
unfoldable pub destroy : ℕ → Option DataQueueInterface → Prog Nodes (Unit {0})
destroy fuel none = pure tt
destroy fuel (some i) = i.clear fuel i.queue
