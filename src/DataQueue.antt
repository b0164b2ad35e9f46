-- ===== src/DataQueue.antt =====
-- queue.c: a FIFO of `void *` over the list of list.c. `struct tagDataQueue` holds one pointer to a
-- list, which is NULL when `DataList_Create` had no memory. `DataQueueInterface` adds to it a table
-- of these same functions.
pub mod Fifo
pub mod Refine
pub mod Interface
pub mod Laws
use epoll_net.Base.{ℕ, Option, none, some, List, [], ◌∷◌, ◌==◌, if◌then◌else◌}
use epoll_net.Memory.{Ptr, null, Prog, crash, pure, ◌>>=◌}
use epoll_net.DataList
use epoll_net.DataList.{DataList, Nodes}
use Fifo.{Op, push_op, pop_op, size_op}

pub record DataQueue : Type 0 where
  pub list : Option DataList

-- `queue` and `list` are what the two calls of `malloc` return.
unfoldable pub init : Ptr → Ptr → Option DataQueue
init queue list = if queue == null then none else some (record { list = DataList.create list })

unfoldable pub clear : ℕ → Option DataQueue → Prog Nodes (Unit {0})
clear fuel none = pure tt
clear fuel (some q) = DataList.delete fuel q.list

-- The list functions below read through the list pointer at once, so NULL crashes.
on_list : {A : Type 0} → Option DataList → (DataList → Prog Nodes A) → Prog Nodes A
on_list none use_it = λ _. crash
on_list (some l) use_it = use_it l

pub push : Ptr → DataQueue → Ptr → Prog Nodes DataQueue
unfolding on_list
push node q datum =
    on_list q.list λ l. do l' ← DataList.add_tail node l datum; pure (record { list = some l' })

pub pop : DataQueue → Prog Nodes (Ptr × DataQueue)
unfolding on_list
pop q = on_list q.list λ l. do (x, l') ← DataList.remove_head l; pure (x, record { list = some l' })

pub size : DataQueue → Prog Nodes ℕ
unfolding on_list
size q = on_list q.list λ l. pure (DataList.get_count l)

-- A client's calls in order, with what each returns (`push` returns nothing, told as NULL).
pub run : DataQueue → List Op → Prog Nodes (List ℕ × DataQueue)
run q [] = pure ([], q)
run q (push_op node datum ∷ ops) = do
  q' ← push node q datum
  (rs, q'') ← run q' ops
  pure (null ∷ rs, q'')
run q (pop_op ∷ ops) = do (x, q') ← pop q; (rs, q'') ← run q' ops; pure (x ∷ rs, q'')
run q (size_op ∷ ops) = do n ← size q; (rs, q') ← run q ops; pure (n ∷ rs, q')
