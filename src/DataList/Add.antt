-- ===== src/DataList/Add.antt =====
-- `DataList_Addtail` and `DataList_Addhead` (list.c).
use epoll_net.Base.{
  ◌≡◌, ◌≢◌, refl, true, false, some, [], ◌∷◌, ◌++◌, arith, ◌==◌, inc32, length-append, inl, inr,
  snoc_view, ==_false, sym,
}
use epoll_net.Memory.{Ptr, null, done, write, place}
use epoll_net.Memory.Ensures.{Ensures, ends}
use epoll_net.Memory.Holds.{Holds, not_null, modify-done, Holds-write, Holds-write_ne}
use epoll_net.DataList.{DataList, data_node, Nodes, create_node, add_tail}
use epoll_net.DataList.Chain.{
  Cells, has, IsList, SameOutside, last, last-append, has-append, Chain-append, append-Chain,
  frame-write, relink_next, Distinct-append, append-Distinct, first-append,
}

-- The list `xs` now ends in a node `fresh` with `datum`, and only nodes of the list were written.
abbrev pub Added : Nodes → Ptr → Ptr → Cells → DataList → Nodes → Type 0
Added h fresh datum xs l' g =
    IsList g l' (xs ++ (fresh, datum) ∷ []) × SameOutside (xs ++ (fresh, datum) ∷ []) h g

module _ {h : Nodes} {l : DataList} (fresh datum : Ptr) (ne : fresh ≢ null) where
  tail_null : IsList h l [] → (l.tail == null) ≡ true
  tail_null is = ground (arith, is.tail_is)

  add_tail_nil : IsList h l [] → Ensures (Added h fresh datum []) (add_tail fresh l datum h)
  unfolding add_tail create_node place write
  add_tail_nil is =
      rw (==_false fresh null ne, tail_null is)
        (ends (
          record {
            links = (record { ne_null = ne; object = ground arith }, tt);
            distinct = (refl, tt);
            head_is = refl;
            tail_is = refl;
            count_is = omega (arith, is.count_is);
          },
          ground arith,
        ))

  module _ (us : Cells) (q e : Ptr) (is : IsList h l (us ++ (q, e) ∷ []))
      (out : has fresh (us ++ (q, e) ∷ []) ≡ false) where
    abbrev with_node : Nodes
    with_node = write h fresh (some (data_node datum null null))

    abbrev with_next : Nodes
    with_next = write with_node q (some (data_node e fresh (last null us)))

    abbrev heap_after : Nodes
    heap_after = write with_next fresh (some (data_node datum null q))

    tail_q : l.tail ≡ q
    tail_q = ground (arith, is.tail_is, last-append null us ((q, e) ∷ []))

    apart : fresh ≢ q
    apart same = ground (arith, has-append fresh us ((q, e) ∷ []))

    before : Holds with_node q (data_node e null (last null us))
    before = Holds-write_ne (Chain-append h null null us ((q, e) ∷ []) is.links).1.0 _ apart

    fresh_still : Holds with_next fresh (data_node datum null null)
    unfolding write
    fresh_still = record { ne_null = ne; object = ground (arith, apart) }

    add_tail_run :
        add_tail fresh l datum h
        ≡ done (record { head = l.head; tail = fresh; count = inc32 l.count }) heap_after
    unfolding add_tail create_node place
    add_tail_run = rw (
      ==_false fresh null ne,
      tail_q,
      not_null before,
      modify-done before _,
      modify-done fresh_still _,
    )

    last_out : has q us ≡ false
    last_out = ground (arith, (Distinct-append us ((q, e) ∷ []) is.distinct).2 q)

    written : SameOutside (us ++ (q, e) ∷ [] ++ (fresh, datum) ∷ []) h heap_after
    unfolding write
    written a o = ground (
      arith,
      has-append a (us ++ (q, e) ∷ []) ((fresh, datum) ∷ []),
      has-append a us ((q, e) ∷ []),
    )

    add_tail_snoc : Ensures (Added h fresh datum (us ++ (q, e) ∷ [])) (add_tail fresh l datum h)
    add_tail_snoc = rw add_tail_run (
        ends (
          record {
            links =
                append-Chain _ null null (us ++ (q, e) ∷ []) ((fresh, datum) ∷ [])
                  (frame-write _ null fresh (us ++ (q, e) ∷ []) fresh _
                    (relink_next _ null null fresh q e us
                      (frame-write h null null _ fresh _ is.links out) last_out)
                    out)
                  (rw (last-append null us ((q, e) ∷ [])) (Holds-write fresh_still _), tt);
            distinct = append-Distinct _ _ is.distinct (refl, tt) (λ a i. ground arith);
            head_is = ground (
              arith,
              is.head_is,
              first-append null (us ++ (q, e) ∷ []) ((fresh, datum) ∷ []),
              first-append fresh us ((q, e) ∷ []),
              first-append null us ((q, e) ∷ []),
            );
            tail_is = sym (last-append null (us ++ (q, e) ∷ []) ((fresh, datum) ∷ []));
            count_is =
                omega (arith, is.count_is, length-append (us ++ (q, e) ∷ []) ((fresh, datum) ∷ []));
          },
          written,
        ))

  -- `DataList_Addtail` with a node from `malloc` that is not in the list appends the datum: the list
  -- stays well linked both ways, and no other address is written.
  pub add_tail-append :
      {xs : Cells}
      → IsList h l xs
      → has fresh xs ≡ false
      → Ensures (Added h fresh datum xs) (add_tail fresh l datum h)
  add_tail-append {xs} is out = elim (snoc_view xs) [
    | inl e ↦ rw e (add_tail_nil (rw e at is))
    | inr (us, (q, d), e) ↦ rw e (add_tail_snoc us q d (rw e at is) (rw e at out))
  ]
