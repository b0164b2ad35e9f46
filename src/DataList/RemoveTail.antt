-- ===== src/DataList/RemoveTail.antt =====
-- `DataList_Removetail` (list.c).
use epoll_net.Base.{
  ◌≡◌, ◌≢◌, refl, sym, subst, ◌∙◌, true, false, some, inl, inr, [], ◌∷◌, ◌++◌, arith, ◌==◌, ==_refl,
  snoc_view, length-append,
}
use epoll_net.Memory.{Ptr, null, done, write}
use epoll_net.Memory.Ensures.{Ensures, ends, chain}
use epoll_net.Memory.Holds.{Holds, not_null, load-done, modify-done, Holds-write, Holds-write_ne}
use epoll_net.DataList.{DataList, data_node, Nodes, detach_tail, remove_tail}
use epoll_net.DataList.Taken.{Taken, Detached, release-Taken}
use epoll_net.DataList.Chain.{
  Cells, has, Chain, Distinct, IsList, SameOutside, first, first_any, last, relink_next, has-append,
  first-append, last-append, Chain-append, append-Chain, Distinct-append,
}

module _ (h : Nodes) (l : DataList) (p : Ptr) where
  detach_tail_nil : Ensures (Detached h l []) (detach_tail l null h)
  unfolding detach_tail
  detach_tail_nil =
      ends
        (record { links = tt; head_is = refl; tail_is = refl; count_is = refl; same = λ a o. refl })

  detach_tail_one :
      (q e : Ptr)
      → Chain h null p ((q, e) ∷ [])
      → Ensures (Detached h l ((q, e) ∷ [])) (detach_tail l q h)
  unfolding detach_tail write
  detach_tail_one q e c =
      let new = relink_next h null p null q e [] c refl in
      rw (not_null c.0, modify-done c.0 _, load-done new.0)
        (ends (record {
          links = new;
          head_is = refl;
          tail_is = refl;
          count_is = refl;
          same = λ a o. ground arith;
        }))

  module _ (vs : Cells) (r f q e : Ptr) (c : Chain h null p (vs ++ (r, f) ∷ [] ++ (q, e) ∷ []))
      (d : Distinct (vs ++ (r, f) ∷ [] ++ (q, e) ∷ [])) where
    abbrev front : Cells
    front = vs ++ (r, f) ∷ []

    last-front : last null front ≡ r
    last-front = last-append null vs ((r, f) ∷ [])

    held : Holds h q (data_node e p r)
    held =
        subst (λ t. Holds h q (data_node e p t)) last-front
          (Chain-append h null p front ((q, e) ∷ []) c).1.0

    q_out : has q front ≡ false
    q_out = ground (arith, (Distinct-append front ((q, e) ∷ []) d).2 q)

    abbrev ended : Nodes
    ended = write h q (some (data_node e null r))

    new : Chain ended null null (front ++ (q, e) ∷ [])
    new =
        subst (λ t. Chain (write h q (some (data_node e null t))) null null (front ++ (q, e) ∷ []))
          last-front (relink_next h null p null q e front c q_out)

    q_new : Holds ended q (data_node e null r)
    q_new = Holds-write held _

    halves : Chain ended null q front × Chain ended (last null front) null ((q, e) ∷ [])
    halves = Chain-append ended null null front ((q, e) ∷ []) new

    r_held : Holds ended r (data_node f q (last null vs))
    r_held = (Chain-append ended null q vs ((r, f) ∷ []) halves.0).1.0

    r_out : has r vs ≡ false
    r_out =
        ground
          (arith, (Distinct-append vs ((r, f) ∷ []) (Distinct-append front ((q, e) ∷ []) d).0).2 r)

    r_ne : r ≢ q
    r_ne same = ground (arith, q_out, has-append q vs ((r, f) ∷ []))

    final : Nodes
    final = write ended r (some (data_node f q (last null vs)))

    final_links : Chain final null null (front ++ (q, e) ∷ [])
    unfolding final
    final_links =
        append-Chain final null null front ((q, e) ∷ [])
          (relink_next ended null q q r f vs halves.0 r_out) (Holds-write_ne halves.1.0 _ r_ne, tt)

    final_same : SameOutside (front ++ (q, e) ∷ []) h final
    unfolding final write
    final_same a o = ground (arith, has-append a front ((q, e) ∷ []), has-append a vs ((r, f) ∷ []))

    detach_tail_more :
        l.head ≡ first null (front ++ (q, e) ∷ [])
        → Ensures (Detached h l (front ++ (q, e) ∷ [])) (detach_tail l q h)
    unfolding detach_tail final
    detach_tail_more first_is =
        rw
          (
            not_null held,
            modify-done held _,
            load-done q_new,
            not_null r_held,
            modify-done r_held _,
          )
          (ends (record {
            links = final_links;
            head_is = first_is;
            tail_is = sym (last-append null front ((q, e) ∷ []));
            count_is = refl;
            same = final_same;
          }))

  detach_tail-Detached :
      (ys : Cells)
      → l.head ≡ first p ys
      → Chain h null p ys
      → Distinct ys
      → Ensures (Detached h l ys) (detach_tail l (last null ys) h)
  detach_tail-Detached ys hd c d = elim (snoc_view ys) [
    | inl e ↦ rw e detach_tail_nil
    | inr (us, (q, v), e) ↦ elim (snoc_view us) [
      | inl e' ↦ rw (e, e') (detach_tail_one q v (rw (e, e') at c))
      | inr (vs, (r, f), e') ↦
          rw (e, e', last-append null (vs ++ (r, f) ∷ []) ((q, v) ∷ []))
            (detach_tail_more vs r f q v (rw (e, e') at c) (rw (e, e') at d)
              (rw (e, e') at hd ∙ first_any p null (vs ++ (r, f) ∷ []) (q, v) []))
    ]
  ]

module _ {h : Nodes} (ys : Cells) (p d : Ptr) where
  -- `DataList_Removetail` returns the last datum, frees its node, and leaves the list of the others:
  -- well linked both ways, one datum shorter, and written only at its own nodes.
  pub remove_tail-snoc :
      {l : DataList}
      → IsList h l (ys ++ (p, d) ∷ [])
      → Ensures (Taken h (ys ++ (p, d) ∷ []) p d ys) (remove_tail l h)
  unfolding remove_tail
  remove_tail-snoc {l} is =
      let (front, back) = Chain-append h null null ys ((p, d) ∷ []) is.links in
      let held_p = back.0 in
      let (l_ok, _, apart) = Distinct-append ys ((p, d) ∷ []) is.distinct in
      let tail_p : l.tail ≡ p = is.tail_is ∙ last-append null ys ((p, d) ∷ []) in
      let held : Holds h l.tail (data_node d null (last null ys)) =
        subst (λ t. Holds h t (data_node d null (last null ys))) (sym tail_p) held_p in
      rw (not_null held, load-done held)
        (chain
          (detach_tail-Detached h l p ys (is.head_is ∙ first-append null ys ((p, d) ∷ [])) front
            l_ok)
          λ l' g det. rw tail_p (
            release-Taken det (ys ++ (p, d) ∷ []) p held_p (ground (arith, apart p)) l_ok
              (omega (arith, is.count_is, length-append ys ((p, d) ∷ [])))
              (ground (arith, has-append p ys ((p, d) ∷ []), ==_refl p))
              (λ a o. ground (arith, has-append a ys ((p, d) ∷ [])))))

-- On an empty list `DataList_Removetail` returns NULL and changes nothing.
pub remove_tail_nil :
    {h : Nodes} {l : DataList} → IsList h l [] → remove_tail l h ≡ done (null, l) h
unfolding remove_tail
remove_tail_nil {l} is = let e : (l.tail == null) ≡ true = ground (arith, is.tail_is) in rw e refl
