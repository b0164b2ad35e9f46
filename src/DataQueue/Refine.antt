-- ===== src/DataQueue/Refine.antt =====
-- The functions of queue.c implement a FIFO.
use epoll_net.Base.{◌≡◌, ◌≢◌, refl, false, none, some, List, [], ◌∷◌, ◌++◌, arith, ◌%◌, ◌^◌, length}
use epoll_net.Memory.{Ptr, null, done}
use epoll_net.Memory.Ensures
use epoll_net.Memory.Ensures.{Ensures, ends}
use epoll_net.DataList.{DataList, Nodes, get_count}
use epoll_net.DataList.Chain.{
  contents, contents-append, length-contents, Cells, has, IsList, SameOutside,
}
use epoll_net.DataList.Add.{add_tail-append}
use epoll_net.DataList.RemoveHead.{remove_head-cons, remove_head_nil}
use epoll_net.DataQueue.Fifo
use epoll_net.DataQueue.Fifo.{Op, push_op, pop_op, size_op, Allocated}
use epoll_net.DataQueue.{DataQueue, push, pop, size, run}

-- The queue has a list, and the list stands for the cells `xs`.
pub record IsQueue (h : Nodes) (q : DataQueue) (xs : Cells) : Type 0 where
  pub handle : DataList
  pub has_list : q.list ≡ some handle
  pub is_list : IsList h handle xs

module _ {h : Nodes} {q : DataQueue} where
  -- `dataQueue_push` puts the datum at the back.
  pub push-IsQueue :
      {xs : Cells} (node datum : Ptr)
      → IsQueue h q xs
      → node ≢ null
      → has node xs ≡ false
      → Ensures
          (λ q' g.
            IsQueue g q' (xs ++ (node, datum) ∷ []) × SameOutside (xs ++ (node, datum) ∷ []) h g)
          (push node q datum h)
  unfolding push
  push-IsQueue node datum is ne out = rw is.has_list (
      Ensures.chain (add_tail-append node datum ne is.is_list out)
        λ l' g (added, same). ends (record { handle = l'; has_list = refl; is_list = added }, same))

  -- `dataQueue_pop` takes the datum in front, and gives its node back.
  pub pop-IsQueue :
      {p d : Ptr} {xs : Cells}
      → IsQueue h q ((p, d) ∷ xs)
      → Ensures
          (λ (x, q') g. (x ≡ d) × IsQueue g q' xs × (g p ≡ none) × SameOutside ((p, d) ∷ xs) h g)
          (pop q h)
  unfolding pop
  pop-IsQueue is = rw is.has_list (
      Ensures.chain (remove_head-cons is.is_list) λ (x, l') g (got, left, gone, same).
        ends (got, record { handle = l'; has_list = refl; is_list = left }, gone, same))

  pub pop-nil :
      IsQueue h q [] → Ensures (λ (x, q') g. (x ≡ null) × IsQueue g q' [] × (g ≡ h)) (pop q h)
  unfolding pop
  pop-nil is =
      rw (is.has_list, remove_head_nil is.is_list)
        (ends (refl, record { handle = is.handle; has_list = refl; is_list = is.is_list }, refl))

  pub size-length : {xs : Cells} → IsQueue h q xs → size q h ≡ done (length xs % 2 ^ 32) h
  unfolding size get_count
  size-length is = rw (is.has_list, is.is_list.count_is)

-- Any sequence of calls on a queue returns what the FIFO of its contents returns: pushes keep their
-- order, a pop on an empty queue returns NULL, sizes are exact modulo 2^32; no call crashes or runs
-- on, and the queue stands for what is left.
pub run_refines :
    (ops : List Op) {h : Nodes} {q : DataQueue} (xs : Cells)
    → IsQueue h q xs
    → Allocated xs ops
    → Ensures
        (λ (replies, q') g.
          (left : Cells) × IsQueue g q' left
          × ((replies, contents left) ≡ Fifo.run (contents xs) ops))
        (run q ops h)
unfolding run Fifo.run
run_refines [] xs is alloc = ends (xs, is, refl)
run_refines (push_op node datum ∷ ops) xs is alloc =
    Ensures.chain (push-IsQueue node datum is alloc.0 alloc.1) λ q' g (is', _).
      Ensures.chain (run_refines ops (xs ++ (node, datum) ∷ []) is' alloc.2)
        λ (rs, q'') k (left, done_is, e).
          ends (left, done_is, ground (arith, e, contents-append xs ((node, datum) ∷ [])))
run_refines (pop_op ∷ ops) [] is alloc = Ensures.chain (pop-nil is) λ (x, q') g (got, is', _).
    Ensures.chain (run_refines ops [] is' alloc)
      λ (rs, q'') k (left, done_is, e). ends (left, done_is, ground (arith, e, got))
run_refines (pop_op ∷ ops) ((p, d) ∷ xs) is alloc =
    Ensures.chain (pop-IsQueue is) λ (x, q') g (got, is', _, _).
      Ensures.chain (run_refines ops xs is' alloc)
        λ (rs, q'') k (left, done_is, e). ends (left, done_is, ground (arith, e, got))
run_refines (size_op ∷ ops) xs is alloc = rw (size-length is) (
    Ensures.chain (run_refines ops xs is alloc)
      λ (rs, q'') k (left, done_is, e). ends (left, done_is, ground (arith, e, length-contents xs)))
