-- ===== src/DataQueue/Laws.antt =====
-- What a client of a queue relies on, and that the linked queue of queue.c fulfils it.
use epoll_net.Base.{◌≡◌, ◌≢◌, false, [], ◌∷◌, ◌++◌}
use epoll_net.Memory.{Ptr, null, Prog}
use epoll_net.Memory.Ensures
use epoll_net.Memory.Ensures.{Ensures}
use epoll_net.DataList.{Nodes}
use epoll_net.DataList.Chain.{Cells, has}
use epoll_net.DataQueue
use epoll_net.DataQueue.{DataQueue}
use epoll_net.DataQueue.Refine.{IsQueue, push-IsQueue, pop-IsQueue, pop-nil}

-- Queues `Q` in a memory `M`; a queue stands for cells, each the address of a node and its datum.
pub record QueueLaws (M Q : Type 0) : Type 1 where
  pub push : Ptr → Q → Ptr → Prog M Q
  pub pop : Q → Prog M (Ptr × Q)
  pub Stands : M → Q → Cells → Type 0
  pub push_back :
      {m : M} {q : Q} {xs : Cells} (node datum : Ptr)
      → Stands m q xs
      → node ≢ null
      → has node xs ≡ false
      → Ensures (λ q' m'. Stands m' q' (xs ++ (node, datum) ∷ [])) (push node q datum m)
  pub pop_front :
      {m : M} {q : Q} {node datum : Ptr} {xs : Cells}
      → Stands m q ((node, datum) ∷ xs)
      → Ensures (λ (x, q') m'. (x ≡ datum) × Stands m' q' xs) (pop q m)
  pub pop_none :
      {m : M} {q : Q}
      → Stands m q []
      → Ensures (λ (x, q') m'. (x ≡ null) × Stands m' q' []) (pop q m)

abbrev pub linked : QueueLaws Nodes DataQueue
linked = record {
  push = DataQueue.push;
  pop = DataQueue.pop;
  Stands = λ h q xs. IsQueue h q xs;
  push_back = λ node datum is ne out.
      Ensures.weaken (push-IsQueue node datum is ne out) (λ q' g (is', _). is');
  pop_front = λ is. Ensures.weaken (pop-IsQueue is) (λ (x, q') g (got, is', _, _). (got, is'));
  pop_none = λ is. Ensures.weaken (pop-nil is) (λ (x, q') g (got, is', _). (got, is'));
}
