-- ===== src/HashTable/Search.antt =====
-- The search and the removal by a key in the list of one bucket.
use epoll_net.Base.{ℕ, ◌<◌, ◌≡◌, refl, ◌∷◌, ◌++◌, ◌==◌, if◌then◌else◌, inl, inr, length}
use epoll_net.Memory.{Ptr, null, done, pure}
use epoll_net.Memory.Ensures
use epoll_net.Memory.Ensures.{Ensures, ends}
use epoll_net.Memory.Holds.{Holds, load-done, not_null}
use epoll_net.DataList
use epoll_net.DataList.{DataList, DataNode, data_node, Nodes, get_current_data}
use epoll_net.DataList.Chain.{Cells, Chain-append, IsList, SameOutside, contents, last, first}
use epoll_net.DataList.Find.{Located, find-Located}
use epoll_net.DataList.RemoveNode.{remove_node-erase}
use epoll_net.HashTable.{look_up, take_out}
use epoll_net.HashTable.Rows.{
  first_match, first_match-NoMatch, first_match-append, erase_cells, erase_cells-NoMatch,
  erase_cells-append,
}

datum_done :
    {h : Nodes} {p : Ptr} {v : DataNode} → Holds h p v → get_current_data p h ≡ done v.datum h
unfolding get_current_data
datum_done held = rw (not_null held, load-done held)

-- The node of a cell of a list.
cell-Holds :
    {h : Nodes} {l : DataList} (ys : Cells) (p d : Ptr) (zs : Cells)
    → IsList h l (ys ++ (p, d) ∷ zs)
    → Holds h p (data_node d (first null zs) (last null ys))
cell-Holds {h} ys p d zs is = (Chain-append h null null ys ((p, d) ∷ zs) is.links).1.0

module _ (cmp : Ptr → Ptr → ℕ) (fuel : ℕ) (key : Ptr) {h : Nodes} {l : DataList} where
  found_datum :
      (xs : Cells) (p : Ptr)
      → IsList h l xs
      → Located cmp key xs p
      → get_current_data p h ≡ done (first_match cmp key (contents xs)) h
  unfolding get_current_data
  found_datum xs p is (inl (at, none)) = rw (at, first_match-NoMatch cmp key xs none) refl
  found_datum xs p is (inr (ys, d, zs, split, none, hit)) =
      rw (split, first_match-append cmp key ys p d zs none hit)
        (datum_done (cell-Holds ys p d zs (rw split at is)))

  pub look_up-first_match :
      (xs : Cells)
      → IsList h l xs
      → length xs < fuel
      → Ensures
          (λ (d, l') g. (d ≡ first_match cmp key (contents xs)) × (l' ≡ l) × (g ≡ h))
          (look_up cmp fuel key l h)
  unfolding look_up
  look_up-first_match xs is enough =
      Ensures.chain (find-Located cmp key fuel is enough)
        λ p g (same, at). rw (same, found_datum xs p is at) (ends (refl, refl, refl))

  removed :
      (xs : Cells) (p : Ptr)
      → IsList h l xs
      → Located cmp key xs p
      → Ensures
          (λ (d, l') g.
            (d ≡ first_match cmp key (contents xs))
            × IsList g l' (erase_cells cmp key xs)
            × SameOutside xs h g)
          ((if p == null then pure (null, l) else DataList.remove_node l p) h)
  removed xs p is (inl (at, none)) =
      rw (at, first_match-NoMatch cmp key xs none, erase_cells-NoMatch cmp key xs none)
        (ends (refl, is, λ a out. refl))
  removed xs p is (inr (ys, d, zs, split, none, hit)) =
      let is' = rw split at is in
      rw
        (
          not_null (cell-Holds ys p d zs is'),
          split,
          first_match-append cmp key ys p d zs none hit,
          erase_cells-append cmp key ys p d zs none hit,
        )
        (Ensures.weaken (remove_node-erase ys p d zs is')
          λ (out, l') g (got, left, gone, same). (got, left, same))

  pub take_out-erase_cells :
      (xs : Cells)
      → IsList h l xs
      → length xs < fuel
      → Ensures
          (λ (d, l') g.
            (d ≡ first_match cmp key (contents xs))
            × IsList g l' (erase_cells cmp key xs)
            × SameOutside xs h g)
          (take_out cmp fuel key l h)
  unfolding take_out
  take_out-erase_cells xs is enough =
      Ensures.chain (find-Located cmp key fuel is enough)
        λ p g (same, at). rw same (removed xs p is at)
