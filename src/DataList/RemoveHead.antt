-- ===== src/DataList/RemoveHead.antt =====
-- `DataList_Removehead` (list.c).
use epoll_net.Base.{◌≡◌, ◌≢◌, refl, true, [], ◌∷◌, arith, ◌==◌, ==_refl}
use epoll_net.Memory.{Ptr, null, done, write}
use epoll_net.Memory.Ensures.{Ensures, ends, chain}
use epoll_net.Memory.Holds.{Holds, not_null, load-done, modify-done, Holds-write_ne}
use epoll_net.DataList.{DataList, data_node, Nodes, detach_head, remove_head}
use epoll_net.DataList.Taken.{Taken, Detached, release-Taken}
use epoll_net.DataList.Chain.{Cells, Chain, Distinct, IsList, first, last, relink_prev}

module _ (h : Nodes) (l : DataList) (p : Ptr) where
  detach_head-Detached :
      (xs : Cells)
      → l.tail ≡ last p xs
      → Chain h p null xs
      → Distinct xs
      → Ensures (Detached h l xs) (detach_head l (first null xs) h)
  unfolding detach_head write
  detach_head-Detached [] t c d =
      ends
        (record { links = tt; head_is = refl; tail_is = refl; count_is = refl; same = λ a o. refl })
  detach_head-Detached ((q, e) ∷ []) t c d =
      let new = relink_prev h p null null q e [] c refl in
      rw (not_null c.0, modify-done c.0 _, load-done new.0)
        (ends (record {
          links = new;
          head_is = refl;
          tail_is = refl;
          count_is = refl;
          same = λ a o. ground arith;
        }))
  detach_head-Detached ((q, e) ∷ (r, f) ∷ ws) t c d =
      let new = relink_prev h p null null q e ((r, f) ∷ ws) c d.0 in
      let ne : r ≢ q = ground (arith, d.0) in
      rw (not_null c.0, modify-done c.0 _, load-done new.0, not_null c.1.0, modify-done new.1.0 _)
        (ends (record {
          links = (Holds-write_ne new.0 _ ne, relink_prev _ q null q r f ws new.1 d.1.0);
          head_is = refl;
          tail_is = t;
          count_is = refl;
          same = λ a o. ground arith;
        }))

module _ {h : Nodes} {p d : Ptr} {xs : Cells} where
  -- `DataList_Removehead` returns the first datum, frees its node, and leaves the list of the rest:
  -- well linked both ways, one datum shorter, and written only at its own nodes.
  pub remove_head-cons :
      {l : DataList}
      → IsList h l ((p, d) ∷ xs)
      → Ensures (Taken h ((p, d) ∷ xs) p d xs) (remove_head l h)
  unfolding remove_head
  remove_head-cons {l} is =
      let held : Holds h l.head (data_node d (first null xs) null) = rw is.head_is is.links.0 in
      rw (not_null held, load-done held)
        (chain (detach_head-Detached h l p xs is.tail_is is.links.1 is.distinct.1) λ l' g det.
          rw is.head_is (
            release-Taken det ((p, d) ∷ xs) p is.links.0 is.distinct.0 is.distinct.1 is.count_is
              (ground (arith, ==_refl p)) (λ a o. ground arith)))

-- On an empty list `DataList_Removehead` returns NULL and changes nothing.
pub remove_head_nil :
    {h : Nodes} {l : DataList} → IsList h l [] → remove_head l h ≡ done (null, l) h
unfolding remove_head
remove_head_nil {l} is = let e : (l.head == null) ≡ true = ground (arith, is.head_is) in rw e refl
