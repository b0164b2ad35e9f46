-- ===== src/DataList/RemoveNode.antt =====
-- `DataList_Removenode` (list.c).
use epoll_net.Base.{
  ◌≡◌, ◌≢◌, refl, ap, sym, subst, ◌∙◌, true, false, some, inl, inr, [], ◌∷◌, ◌++◌, arith, ◌==◌,
  ==_refl, ==_false, snoc_view, length-append, append-nil,
}
use mathlib.Core.Bool.{true≢false}
use epoll_net.Memory.{Ptr, null, write}
use epoll_net.Memory.Ensures.{Ensures}
use epoll_net.Memory.Holds.{Holds, load-done, modify-done, Holds-write_ne}
use epoll_net.DataList.{DataList, data_node, Nodes, unlink, remove_node}
use epoll_net.DataList.Taken.{Taken, Detached, release-Taken}
use epoll_net.DataList.RemoveHead.{remove_head-cons}
use epoll_net.DataList.RemoveTail.{remove_tail-snoc}
use epoll_net.DataList.Chain.{
  Cells, has, Chain, Distinct, IsList, first, first_any, first-mem, last, last-mem, frame-write,
  relink_next, relink_prev, has-append, first-append, last-append, Chain-append, append-Chain,
  Distinct-append, append-Distinct,
}

-- A node between two others: `us ++ (q, e)` stands before it, `(r, f) ∷ ws` after it.
module _ {h : Nodes} {l : DataList} (us : Cells) (q e p d r f : Ptr) (ws : Cells)
    (is : IsList h l ((us ++ (q, e) ∷ []) ++ (p, d) ∷ (r, f) ∷ ws)) where
  abbrev ys : Cells
  ys = us ++ (q, e) ∷ []

  abbrev zs : Cells
  zs = (r, f) ∷ ws

  cut : Chain h null p ys × Chain h (last null ys) null ((p, d) ∷ zs)
  cut = Chain-append h null null ys ((p, d) ∷ zs) is.links

  parts :
      Distinct ys
      × Distinct ((p, d) ∷ zs)
      × ((a : Ptr) → has a ys ≡ true → has a ((p, d) ∷ zs) ≡ false)
  parts = Distinct-append ys ((p, d) ∷ zs) is.distinct

  last-ys : last null ys ≡ q
  last-ys = last-append null us ((q, e) ∷ [])

  q_in : has q ys ≡ true
  q_in = ground (arith, has-append q us ((q, e) ∷ []))

  q_us : has q us ≡ false
  q_us = ground (arith, (Distinct-append us ((q, e) ∷ []) parts.0).2 q)

  p_out : has p ys ≡ false
  p_out = ground (arith, parts.2 p)

  r_out : has r ys ≡ false
  r_out = ground (arith, parts.2 r)

  q_zs : has q zs ≡ false
  q_zs = ground (arith, q_in, parts.2 q)

  q_ne : q ≢ p
  q_ne same = ground (arith, q_in, parts.2 q)

  held_q : Holds h q (data_node e p (last null us))
  held_q = (Chain-append h null p us ((q, e) ∷ []) cut.0).1.0

  held_p : Holds h p (data_node d r q)
  held_p = subst (λ t. Holds h p (data_node d r t)) last-ys cut.1.0

  abbrev past_next : Nodes
  past_next = write h q (some (data_node e r (last null us)))

  held_p' : Holds past_next p (data_node d r q)
  held_p' = Holds-write_ne held_p _ q_ne

  back : Chain past_next p null zs
  back = frame-write h p null zs q _ cut.1.1 q_zs

  abbrev past_prev : Nodes
  past_prev = write past_next r (some (data_node f (first null ws) q))

  unlinked : Detached h l (ys ++ zs) l past_prev
  unfolding write
  unlinked = record {
    links =
        append-Chain past_prev null null ys zs
          (frame-write past_next null r ys r _ (relink_next h null p r q e us cut.0 q_us) r_out)
          (subst (λ t. Chain past_prev t null zs) (sym last-ys)
            (relink_prev past_next p null q r f ws back parts.1.1.0));
    head_is =
        is.head_is
        ∙ first-append null ys ((p, d) ∷ zs)
        ∙ first_any p r us (q, e) []
        ∙ sym (first-append null ys zs);
    tail_is = is.tail_is ∙ last-append null ys ((p, d) ∷ zs) ∙ sym (last-append null ys zs);
    count_is = refl;
    same = λ a o. ground (arith, has-append a ys zs, has-append a us ((q, e) ∷ []));
  }

  unlink-Taken : Ensures (Taken h (ys ++ (p, d) ∷ zs) p d (ys ++ zs)) (unlink l p h)
  unfolding unlink
  unlink-Taken =
      rw (load-done held_p, modify-done held_q _, load-done held_p', modify-done back.0 _)
        (release-Taken unlinked (ys ++ (p, d) ∷ zs) p held_p
          (ground (arith, has-append p ys zs, p_out, parts.1))
          (append-Distinct ys zs parts.0 parts.1.1 (λ a i. ground (arith, parts.2 a)))
          (omega (arith, is.count_is, length-append ys ((p, d) ∷ zs), length-append ys zs))
          (ground (arith, has-append p ys ((p, d) ∷ zs), ==_refl p))
          (λ a o. ground (arith, has-append a ys ((p, d) ∷ zs), has-append a ys zs)))

module _ {h : Nodes} {l : DataList} where
  remove_first :
      {p d : Ptr} {zs : Cells}
      → IsList h l ((p, d) ∷ zs)
      → Ensures (Taken h ((p, d) ∷ zs) p d zs) (remove_node l p h)
  unfolding remove_node
  remove_first {p} is =
      let e : (p == l.head) ≡ true = ground (arith, is.head_is) in rw e (remove_head-cons is)

  not_head :
      (us : Cells) (q e p d : Ptr) (ws : Cells)
      → IsList h l ((us ++ (q, e) ∷ []) ++ (p, d) ∷ ws)
      → (p == l.head) ≡ false
  not_head us q e p d ws is =
      let front : Cells = us ++ (q, e) ∷ [] in
      let (_, _, apart) = Distinct-append front ((p, d) ∷ ws) is.distinct in
      ground (
        arith,
        is.head_is,
        first-append null front ((p, d) ∷ ws),
        first-mem p us (q, e),
        apart (first p front),
      )

  not_tail :
      (ys : Cells) (p d r f : Ptr) (ws : Cells)
      → IsList h l (ys ++ (p, d) ∷ (r, f) ∷ ws)
      → (p == l.tail) ≡ false
  not_tail ys p d r f ws is =
      let (_, own, _) = Distinct-append ys ((p, d) ∷ (r, f) ∷ ws) is.distinct in
      ==_false p l.tail λ same.
        let at : p ≡ last p ((r, f) ∷ ws) =
          same ∙ is.tail_is ∙ last-append null ys ((p, d) ∷ (r, f) ∷ ws) in
        true≢false (sym (last-mem p (r, f) ws) ∙ ap (λ a. has a ((r, f) ∷ ws)) (sym at) ∙ own.0)

  remove_last :
      (us : Cells) (q e p d : Ptr)
      → IsList h l ((us ++ (q, e) ∷ []) ++ (p, d) ∷ [])
      → Ensures
          (Taken h ((us ++ (q, e) ∷ []) ++ (p, d) ∷ []) p d (us ++ (q, e) ∷ []))
          (remove_node l p h)
  unfolding remove_node
  remove_last us q e p d is =
      let at_head : (p == l.head) ≡ false = not_head us q e p d [] is in
      let at_tail : (p == l.tail) ≡ true =
        ground (arith, is.tail_is, last-append null (us ++ (q, e) ∷ []) ((p, d) ∷ [])) in
      rw (at_head, at_tail) (remove_tail-snoc (us ++ (q, e) ∷ []) p d is)

  remove_inner :
      (us : Cells) (q e p d r f : Ptr) (ws : Cells)
      → IsList h l ((us ++ (q, e) ∷ []) ++ (p, d) ∷ (r, f) ∷ ws)
      → Ensures
          (Taken h
            ((us ++ (q, e) ∷ []) ++ (p, d) ∷ (r, f) ∷ ws)
            p
            d
            ((us ++ (q, e) ∷ []) ++ (r, f) ∷ ws))
          (remove_node l p h)
  unfolding remove_node
  remove_inner us q e p d r f ws is =
      let at_head : (p == l.head) ≡ false = not_head us q e p d ((r, f) ∷ ws) is in
      let at_tail : (p == l.tail) ≡ false = not_tail (us ++ (q, e) ∷ []) p d r f ws is in
      rw (at_head, at_tail) (unlink-Taken us q e p d r f ws is)

  remove_after :
      (us : Cells) (q e p d : Ptr) (zs : Cells)
      → IsList h l ((us ++ (q, e) ∷ []) ++ (p, d) ∷ zs)
      → Ensures
          (Taken h ((us ++ (q, e) ∷ []) ++ (p, d) ∷ zs) p d ((us ++ (q, e) ∷ []) ++ zs))
          (remove_node l p h)
  remove_after us q e p d [] is = rw (append-nil (us ++ (q, e) ∷ [])) (remove_last us q e p d is)
  remove_after us q e p d ((r, f) ∷ ws) is = remove_inner us q e p d r f ws is

  -- `DataList_Removenode` of a node of the list, wherever it stands, returns its datum, frees it and
  -- leaves the list of the others in their order: well linked both ways, one datum shorter, and
  -- written only at its own nodes.
  pub remove_node-erase :
      (ys : Cells) (p d : Ptr) (zs : Cells)
      → IsList h l (ys ++ (p, d) ∷ zs)
      → Ensures (Taken h (ys ++ (p, d) ∷ zs) p d (ys ++ zs)) (remove_node l p h)
  remove_node-erase ys p d zs is = elim (snoc_view ys) [
    | inl e ↦ rw e (remove_first (rw e at is))
    | inr (us, (q, v), e) ↦ rw e (remove_after us q v p d zs (rw e at is))
  ]
