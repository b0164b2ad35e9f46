-- ===== src/DataList/Taken.antt =====
-- What the removals of list.c share: the links around a node are mended, then it is given back.
use epoll_net.Base.{◌≡◌, refl, true, false, none, arith, length, suc, ◌%◌, ◌^◌}
use epoll_net.Memory.{Ptr, null, write}
use epoll_net.Memory.Ensures.{Ensures, ends}
use epoll_net.Memory.Holds.{Holds, load-done, free-done}
use epoll_net.DataList.{DataList, data_node, Nodes, release}
use epoll_net.DataList.Chain.{
  Cells, has, Chain, Distinct, IsList, SameOutside, first, last, frame-write,
}

-- A node at `p` with datum `d` is gone, `xs` is left, and only nodes of `old` were written.
abbrev pub Taken : Nodes → Cells → Ptr → Ptr → Cells → Ptr × DataList → Nodes → Type 0
Taken h old p d xs (out, l') g = (out ≡ d) × IsList g l' xs × (g p ≡ none) × SameOutside old h g

-- The nodes that stay are linked among themselves, and the one that goes is untouched.
pub record Detached (h : Nodes) (l : DataList) (xs : Cells) (l' : DataList) (g : Nodes)
    : Type 0 where
  pub links : Chain g null null xs
  pub head_is : l'.head ≡ first null xs
  pub tail_is : l'.tail ≡ last null xs
  pub count_is : l'.count ≡ l.count
  pub same : SameOutside xs h g

module _ {h g : Nodes} {l l' : DataList} {xs : Cells} (det : Detached h l xs l' g) where
  pub release-Taken :
      (old : Cells) (p : Ptr) {d n b : Ptr}
      → Holds h p (data_node d n b)
      → has p xs ≡ false
      → Distinct xs
      → l.count ≡ suc (length xs) % 2 ^ 32
      → has p old ≡ true
      → ((a : Ptr) → has a old ≡ false → has a xs ≡ false)
      → Ensures (Taken h old p d xs) (release l' p g)
  unfolding release write
  release-Taken old p {d} {n} {b} e out distinct count mine sub =
      let held : Holds g p (data_node d n b) = ground (arith, e, det.same p) in
      rw (load-done held, free-done held)
        (ends (
          refl,
          record {
            links = frame-write g null null xs p none det.links out;
            distinct = distinct;
            head_is = det.head_is;
            tail_is = det.tail_is;
            count_is = omega (arith, det.count_is);
          },
          ground arith,
          λ a o. ground (arith, det.same a, sub a o),
        ))
