-- ===== src/DataQueue/Fifo.antt =====
-- What a client may ask of a queue, and the queue that it should see: the data, oldest first.
use epoll_net.Base.{ℕ, ◌≡◌, ◌≢◌, false, List, [], ◌∷◌, ◌++◌, ◌%◌, ◌^◌, length}
use epoll_net.Memory.{Ptr, null}
use epoll_net.DataList.Chain.{Cells, has}

-- A push carries the address that `malloc` gives to its node.
pub data Op : Type 0 where
  push_op : Ptr → Ptr → Op
  pop_op size_op : Op

-- The reply is the size as an `unsigned int`, or the oldest datum, NULL if there is none.
unfoldable pub run : List Ptr → List Op → List ℕ × List Ptr
run ds [] = ([], ds)
run ds (push_op _ d ∷ ops) = let (rs, left) = run (ds ++ d ∷ []) ops in (null ∷ rs, left)
run [] (pop_op ∷ ops) = let (rs, left) = run [] ops in (null ∷ rs, left)
run (d ∷ ds) (pop_op ∷ ops) = let (rs, left) = run ds ops in (d ∷ rs, left)
run ds (size_op ∷ ops) = let (rs, left) = run ds ops in (length ds % 2 ^ 32 ∷ rs, left)

-- `malloc` behaves: each node's address is not NULL and not that of a node still in the queue.
abbrev pub Allocated : Cells → List Op → Type 0
Allocated xs [] = Unit
Allocated xs (push_op p d ∷ ops) =
    (p ≢ null) × (has p xs ≡ false) × Allocated (xs ++ (p, d) ∷ []) ops
Allocated [] (pop_op ∷ ops) = Allocated [] ops
Allocated (x ∷ xs) (pop_op ∷ ops) = Allocated xs ops
Allocated xs (size_op ∷ ops) = Allocated xs ops
