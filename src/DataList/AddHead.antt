-- ===== src/DataList/AddHead.antt =====
-- `DataList_Addhead`, and `DataList_Addtail` without memory (list.c).
use epoll_net.Base.{
  ℕ, zero, suc, ◌≡◌, ◌≢◌, refl, true, false, some, [], ◌∷◌, ◌++◌, arith, ◌==◌, length, inl, inr,
  snoc_view, ==_false, sym, ◌⊎◌, ap, length-append, ◌∙◌,
}
use epoll_net.Memory.{Ptr, null, done, running, write, place, crash}
use epoll_net.Memory.Ensures
use epoll_net.Memory.Ensures.{Ensures, ends}
use epoll_net.Memory.Holds.{Holds, not_null, load-done, modify-done, Holds-write, modify-null}
use epoll_net.DataList.{
  DataList, data_node, Nodes, create_node, add_tail, add_head, find, find_loop,
}
use epoll_net.DataList.Chain.{Cells, IsList, SameOutside, last-append, Chain-append}

module _ {h : Nodes} {l : DataList} (fresh datum : Ptr) (ne : fresh ≢ null) where
  -- `DataList_Addhead` on an empty list makes it the list of the one datum.
  pub add_head_nil :
      IsList h l []
      → Ensures
          (λ l' g. IsList g l' ((fresh, datum) ∷ []) × SameOutside ((fresh, datum) ∷ []) h g)
          (add_head fresh l datum h)
  unfolding add_head create_node place write
  add_head_nil is =
      let e : (l.head == null) ≡ true = ground (arith, is.head_is) in
      rw (==_false fresh null ne, e)
        (ends (
          record {
            links = (record { ne_null = ne; object = ground arith }, tt);
            distinct = (refl, tt);
            head_is = refl;
            tail_is = refl;
            count_is = omega (arith, is.count_is);
          },
          ground arith,
        ))

  module _ {x : Ptr × Ptr} {xs : Cells} (is : IsList h l (x ∷ xs)) where
    abbrev with_node : Nodes
    with_node = write h fresh (some (data_node datum null null))

    placed : Holds with_node fresh (data_node datum null null)
    unfolding write
    placed = record { ne_null = ne; object = ground arith }

    head_not_null : (l.head == null) ≡ false
    head_not_null = ground (arith, is.links.0)

    written : SameOutside ((fresh, datum) ∷ []) h (
        write
          (write with_node fresh (some (data_node datum fresh null)))
          fresh
          (some (data_node datum fresh fresh)))
    unfolding write
    written a o = ground arith

    -- `DataList_Addhead` on a list that is not empty makes the new node its own neighbour on both
    -- sides: the head no longer leads to the old nodes, which stay allocated, and `tail` and all
    -- other addresses are as they were.
    pub add_head_cons :
        Ensures
          (λ l' g.
            (l'.head ≡ fresh)
            × (l'.tail ≡ l.tail)
            × Holds g fresh (data_node datum fresh fresh)
            × SameOutside ((fresh, datum) ∷ []) h g)
          (add_head fresh l datum h)
    unfolding add_head create_node place
    add_head_cons =
        rw
          (
            ==_false fresh null ne,
            head_not_null,
            modify-done placed _,
            modify-done (Holds-write placed _) _,
          )
          (ends (refl, refl, Holds-write (Holds-write placed _) _, written))

-- A search from a node that is its own successor does not end, unless that node matches.
find_loop_cycle :
    {h : Nodes} {p d : Ptr} (cmp : Ptr → Ptr → ℕ) (key prev : Ptr) (fuel : ℕ)
    → Holds h p (data_node d p prev)
    → (cmp key d == 0) ≡ false
    → find_loop cmp key fuel p h ≡ running
unfolding find_loop
find_loop_cycle cmp key prev zero e miss = refl
find_loop_cycle cmp key prev (suc fuel) e miss =
    rw (not_null e, load-done e, miss) (find_loop_cycle cmp key prev fuel e miss)

-- After `DataList_Addhead` on a list that is not empty, `DataList_Find` for a key that the new datum
-- does not match never ends, whatever older data would match.
pub find-add_head :
    {h : Nodes} {l : DataList} {x : Ptr × Ptr} {xs : Cells} (fresh datum : Ptr)
    (cmp : Ptr → Ptr → ℕ) (key : Ptr)
    → IsList h l (x ∷ xs)
    → fresh ≢ null
    → (cmp key datum == 0) ≡ false
    → Ensures
        (λ l' g. (fuel : ℕ) → find fuel cmp (some l') key g ≡ running)
        (add_head fresh l datum h)
unfolding find
find-add_head fresh datum cmp key is ne miss =
    Ensures.weaken (add_head_cons fresh datum ne is)
      λ l' g (at, _, e, _) fuel. rw at (find_loop_cycle cmp key fresh fuel e miss)

no_memory_nil :
    {h : Nodes} {l : DataList} (datum : Ptr)
    → IsList h l []
    → add_tail null l datum h ≡ done (record { head = null; tail = null; count = 1 }) h
unfolding add_tail create_node
no_memory_nil {h} {l} datum is =
    let e : (l.tail == null) ≡ true = ground (arith, is.tail_is) in
    rw e (
      ap (λ n. done (record { head = null; tail = null; count = n }) h)
        (omega (arith, is.count_is)))

no_memory_snoc :
    {h : Nodes} {l : DataList} (us : Cells) (q d datum : Ptr)
    → IsList h l (us ++ (q, d) ∷ [])
    → add_tail null l datum h ≡ crash
unfolding add_tail create_node
no_memory_snoc {h} {l} us q d datum is =
    let held = (Chain-append h null null us ((q, d) ∷ []) is.links).1.0 in
    let e : l.tail ≡ q = ground (arith, is.tail_is, last-append null us ((q, d) ∷ [])) in
    rw (e, not_null held, modify-done held _, modify-null)

-- Without memory `DataList_Addtail` crashes on a list that is not empty, and on the empty list
-- returns a list with no node that counts one datum.
pub add_tail_no_memory :
    {h : Nodes} {l : DataList} (xs : Cells) (datum : Ptr)
    → IsList h l xs
    → ((xs ≢ []) × (add_tail null l datum h ≡ crash))
      ⊎ ((xs ≡ [])
          × (add_tail null l datum h ≡ done (record { head = null; tail = null; count = 1 }) h))
add_tail_no_memory xs datum is = elim (snoc_view xs) [
  | inl e ↦ inr (e, no_memory_nil datum (rw e at is))
  | inr (us, (q, d), e) ↦ inl (
    λ none_left. ground (arith, length-append us ((q, d) ∷ []), ap length (sym e ∙ none_left)),
    no_memory_snoc us q d datum (rw e at is),
  )
]
