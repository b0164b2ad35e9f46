-- ===== src/DataList.antt =====
-- list.c: a doubly linked list of `void *`. The `struct tagDataList` that a caller holds is a value
-- which each function returns anew; the nodes stand in memory. `node` is what `malloc` returns.
pub mod Chain
pub mod Clear
pub mod Find
pub mod Add
pub mod AddHead
pub mod RemoveHead
pub mod RemoveNode
pub mod RemoveTail
pub mod Taken
use epoll_net.Base.{
  ℕ, zero, suc, ◌≡◌, Option, none, some, List, [], ◌∷◌, inc32, dec32, ◌==◌, if◌then◌else◌,
}
use epoll_net.Memory.{
  Ptr, null, Store, Prog, crash, pure, give_up, ◌>>=◌, ◌>>◌, load, place, modify, free,
}

-- `struct tagDataNode`
pub record DataNode : Type 0 where
  pub datum : Ptr
  pub next : Ptr
  pub prev : Ptr

abbrev pub data_node : Ptr → Ptr → Ptr → DataNode
data_node d n p = record { datum = d; next = n; prev = p }

-- `struct tagDataList`
pub record DataList : Type 0 where
  pub head : Ptr
  pub tail : Ptr
  pub count : ℕ

abbrev pub Nodes : Type 0
Nodes = Store DataNode

abbrev pub set_next : Ptr → DataNode → DataNode
set_next q n = record n { next = q }

abbrev pub set_prev : Ptr → DataNode → DataNode
set_prev q n = record n { prev = q }

-- `none` when `malloc` fails.
unfoldable pub create : Ptr → Option DataList
create list = if list == null then none else some (record { head = null; tail = null; count = 0 })

-- `DataNode_Create`: NULL when `malloc` fails.
unfoldable pub create_node : Ptr → Ptr → Prog Nodes Ptr
create_node node datum =
    if node == null then pure null else do place node (data_node datum null null); pure node

link_tail : DataList → Ptr → Prog Nodes DataList
link_tail l node = if l.tail == null then pure (record l { head = node; tail = node }) else do
  modify l.tail (set_next node)
  modify node (set_prev l.tail)
  pure (record l { tail = node })

pub add_tail : Ptr → DataList → Ptr → Prog Nodes DataList
unfolding link_tail
add_tail fresh l datum = do
  node ← create_node fresh datum
  l' ← link_tail l node
  pure (record l' { count = inc32 l.count })

-- The source stores `node` in `list->head` first, and reads `list->head` back afterwards.
link_head : DataList → Ptr → Prog Nodes DataList
link_head l node = if l.head == null then pure (record l { head = node; tail = node }) else do
  modify node (set_next node)
  modify node (set_prev node)
  pure (record l { head = node })

pub add_head : Ptr → DataList → Ptr → Prog Nodes DataList
unfolding link_head
add_head fresh l datum = do
  node ← create_node fresh datum
  l' ← link_head l node
  pure (record l' { count = inc32 l.count })

-- The links around a head whose successor is `next`.
detach_head : DataList → Ptr → Prog Nodes DataList
detach_head l next = if next == null then pure (record l { head = null; tail = null }) else do
  modify next (set_prev null)
  n ← load next
  if n.next == null
      then pure (record l { head = next; tail = next })
      else (do modify n.next (set_prev next); pure (record l { head = next }))

-- `list->count--` and the release of `temp`, which both removals end with.
pub release : DataList → Ptr → Prog Nodes (Ptr × DataList)
release l temp = do t ← load temp; free temp; pure (t.datum, record l { count = dec32 l.count })

pub remove_head : DataList → Prog Nodes (Ptr × DataList)
unfolding detach_head release
remove_head l =
    if l.head == null
    then pure (null, l)
    else do temp ← load l.head; l' ← detach_head l temp.next; release l' l.head

detach_tail : DataList → Ptr → Prog Nodes DataList
detach_tail l prev = if prev == null then pure (record l { head = null; tail = null }) else do
  modify prev (set_next null)
  n ← load prev
  if n.prev == null
      then pure (record l { head = prev; tail = prev })
      else (do modify n.prev (set_next prev); pure (record l { tail = prev }))

pub remove_tail : DataList → Prog Nodes (Ptr × DataList)
unfolding detach_tail release
remove_tail l =
    if l.tail == null
    then pure (null, l)
    else do temp ← load l.tail; l' ← detach_tail l temp.prev; release l' l.tail

-- `node->prev->next = node->next; node->next->prev = node->prev;`
unlink : DataList → Ptr → Prog Nodes (Ptr × DataList)
unfolding release
unlink l node = do
  n ← load node
  modify n.prev (set_next n.next)
  m ← load node
  modify m.next (set_prev m.prev)
  release l node

pub remove_node : DataList → Ptr → Prog Nodes (Ptr × DataList)
unfolding remove_head remove_tail unlink
remove_node l node =
    if node == l.head
    then remove_head l
    else if node == l.tail
    then remove_tail l
    else unlink l node

-- `while (list->head != NULL) DataList_Removetail(list);` in at most as many rounds as the fuel.
pub clear : ℕ → DataList → Prog Nodes DataList
unfolding remove_tail
clear zero l = give_up
clear (suc fuel) l = if l.head == null then pure l else do (_, l') ← remove_tail l; clear fuel l'

-- `free(list)` gives the list's own object back; the caller has no list afterwards.
unfoldable pub delete : ℕ → Option DataList → Prog Nodes (Unit {0})
unfolding clear
delete fuel none = pure tt
delete fuel (some l) = do _ ← clear fuel l; pure tt

-- `cmp` is the caller's comparison, its `int` result as a bit pattern: 0 says that the data match.
find_loop : (Ptr → Ptr → ℕ) → Ptr → ℕ → Ptr → Prog Nodes Ptr
find_loop cmp datum zero current = give_up
find_loop cmp datum (suc fuel) current = if current == null then pure null else do
  n ← load current
  if cmp datum n.datum == 0 then pure current else find_loop cmp datum fuel n.next

pub find : ℕ → (Ptr → Ptr → ℕ) → Option DataList → Ptr → Prog Nodes Ptr
unfolding find_loop
find fuel cmp none datum = pure null
find fuel cmp (some l) datum = find_loop cmp datum fuel l.head

unfoldable pub get_count : DataList → ℕ
get_count l = l.count

unfoldable pub get_head : Option DataList → Ptr
get_head none = null
get_head (some l) = l.head

unfoldable pub get_next : Ptr → Prog Nodes Ptr
get_next node = if node == null then pure null else do n ← load node; pure n.next

unfoldable pub get_current_data : Ptr → Prog Nodes Ptr
get_current_data node = if node == null then pure null else do n ← load node; pure n.datum
