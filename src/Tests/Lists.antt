-- ===== src/Tests/Lists.antt =====
-- list.c and queue.c at a list of two nodes, at the addresses 1 and 2.
use epoll_net.Base.{ℕ, ◌≡◌, refl, none, some, List, [], ◌∷◌, arith, ◌==◌, if◌then◌else◌}
use epoll_net.Memory.{Ptr, null, write}
use epoll_net.Memory.Ensures.{Ensures}
use epoll_net.DataList.{DataList, data_node, Nodes, add_tail, remove_node, find}
use epoll_net.DataList.Chain.{contents, Cells, IsList}
use epoll_net.DataList.Add.{Added, add_tail-append}
use epoll_net.DataList.Taken.{Taken}
use epoll_net.DataList.RemoveNode.{remove_node-erase}
use epoll_net.DataList.Find.{Located, find-Located}
use epoll_net.DataQueue.{DataQueue, run}
use epoll_net.DataQueue.Fifo
use epoll_net.DataQueue.Fifo.{Op, push_op, pop_op, size_op}
use epoll_net.DataQueue.Refine.{IsQueue, run_refines}

abbrev pub empty_memory : Nodes
empty_memory _ = none

abbrev pub nodes : Nodes
nodes = write (write empty_memory 1 (some (data_node 10 2 null))) 2 (some (data_node 20 null 1))

abbrev pub two : DataList
two = record { head = 1; tail = 2; count = 2 }

abbrev pub cells : Cells
cells = (1, 10) ∷ (2, 20) ∷ []

pub two-IsList : IsList nodes two cells
unfolding write
two-IsList = record {
  links = (
    record { ne_null = omega arith; object = refl },
    (record { ne_null = omega arith; object = refl }, tt),
  );
  distinct = (refl, (refl, tt));
  head_is = refl;
  tail_is = refl;
  count_is = refl;
}

abbrev equal : Ptr → Ptr → ℕ
equal a b = if a == b then 0 else 1

add_tail-append_example : Ensures (Added nodes 3 30 cells) (add_tail 3 two 30 nodes)
add_tail-append_example = add_tail-append 3 30 (omega arith) two-IsList refl

remove_node-erase_example :
    Ensures (Taken nodes cells 2 20 ((1, 10) ∷ [])) (remove_node two 2 nodes)
remove_node-erase_example = remove_node-erase ((1, 10) ∷ []) 2 20 [] two-IsList

find-Located_example :
    Ensures (λ p g. (g ≡ nodes) × Located equal 20 cells p) (find 3 equal (some two) 20 nodes)
find-Located_example = find-Located equal 20 3 two-IsList (omega arith)

abbrev queue : DataQueue
queue = record { list = some two }

queue-IsQueue : IsQueue nodes queue cells
queue-IsQueue = record { handle = two; has_list = refl; is_list = two-IsList }

-- Address 1 is given out again after its node was freed.
abbrev script : List Op
script = push_op 3 30 ∷ pop_op ∷ push_op 1 40 ∷ size_op ∷ pop_op ∷ pop_op ∷ pop_op ∷ pop_op ∷ []

run_refines_example :
    Ensures
      (λ (replies, q') g.
        (left : Cells) × IsQueue g q' left
        × ((replies, contents left) ≡ Fifo.run (10 ∷ 20 ∷ []) script))
      (run queue script nodes)
run_refines_example =
    run_refines script cells queue-IsQueue (omega arith, refl, (omega arith, refl, tt))

fifo_runs : Fifo.run (10 ∷ 20 ∷ []) script ≡ (0 ∷ 10 ∷ 0 ∷ 3 ∷ 20 ∷ 30 ∷ 40 ∷ 0 ∷ [], [])
unfolding Fifo.run
fifo_runs = refl
