-- ===== src/DataList/Find.antt =====
-- `DataList_Find` and the walk by `DataList_GetHead`, `DataList_GetNext` and
-- `DataList_GetCurrentData` (list.c).
use epoll_net.Base.{
  ℕ, zero, suc, ◌<◌, ◌≡◌, refl, ap, true, false, ◌⊎◌, inl, inr, some, [], ◌∷◌, ◌++◌, arith, ◌==◌,
  length, Bool-cases,
}
use epoll_net.Memory.{Ptr, null, done}
use epoll_net.Memory.Ensures
use epoll_net.Memory.Ensures.{Ensures, ends}
use epoll_net.Memory.Holds.{Holds, not_null, load-done}
use epoll_net.DataList.{data_node, DataList, Nodes, find_loop, find}
use epoll_net.DataList.Chain.{Cells, Chain, IsList, first}

module _ (cmp : Ptr → Ptr → ℕ) (key : Ptr) where
  abbrev pub NoMatch : Cells → Type 0
  NoMatch [] = Unit
  NoMatch ((_, d) ∷ xs) = ((cmp key d == 0) ≡ false) × NoMatch xs

  -- `p` is the address of the first node whose datum matches, or NULL if there is none.
  abbrev pub Located : Cells → Ptr → Type 0
  Located xs p =
      ((p ≡ null) × NoMatch xs)
      ⊎ ((ys : Cells) × (d : Ptr) × (zs : Cells) × (xs ≡ ys ++ (p, d) ∷ zs)
          × NoMatch ys
          × ((cmp key d == 0) ≡ true))

  Located-cons :
      (q e : Ptr) (xs : Cells) (p : Ptr)
      → (cmp key e == 0) ≡ false
      → Located xs p
      → Located ((q, e) ∷ xs) p
  Located-cons q e xs p miss (inl (at, none_left)) = inl (at, (miss, none_left))
  Located-cons q e xs p miss (inr (ys, d, zs, split, before, hit)) =
      inr ((q, e) ∷ ys, d, zs, ap (λ t. (q, e) ∷ t) split, (miss, before), hit)

  find_loop-miss :
      (fuel : ℕ) {h : Nodes} {q e n b : Ptr}
      → Holds h q (data_node e n b)
      → (cmp key e == 0) ≡ false
      → find_loop cmp key (suc fuel) q h ≡ find_loop cmp key fuel n h
  unfolding find_loop
  find_loop-miss fuel held miss = rw (not_null held, load-done held, miss)

  find_loop-hit :
      (fuel : ℕ) {h : Nodes} {q e n b : Ptr}
      → Holds h q (data_node e n b)
      → (cmp key e == 0) ≡ true
      → find_loop cmp key (suc fuel) q h ≡ done q h
  unfolding find_loop
  find_loop-hit fuel held hit = rw (not_null held, load-done held, hit)

  find_loop_end : (fuel : ℕ) (h : Nodes) → find_loop cmp key (suc fuel) null h ≡ done null h
  unfolding find_loop
  find_loop_end fuel h = refl

  find_loop_lem :
      (fuel : ℕ) (h : Nodes) (before : Ptr) (xs : Cells)
      → length xs < fuel
      → Chain h before null xs
      → Ensures (λ p g. (g ≡ h) × Located xs p) (find_loop cmp key fuel (first null xs) h)
  find_loop_lem zero h b xs enough c = absurd (omega arith)
  find_loop_lem (suc fuel) h b [] enough c = rw (find_loop_end fuel h) (ends (refl, inl (refl, tt)))
  find_loop_lem (suc fuel) h b ((q, e) ∷ xs) enough c = elim (Bool-cases (cmp key e == 0)) [
    | inl hit ↦ rw (find_loop-hit fuel c.0 hit) (ends (refl, inr ([], e, xs, refl, tt, hit)))
    | inr miss ↦ rw (find_loop-miss fuel c.0 miss) (
        Ensures.weaken (find_loop_lem fuel h q xs (omega arith) c.1)
          λ p g (same, at). (same, Located-cons q e xs p miss at))
  ]

  -- `DataList_Find` returns, with more rounds than the list has nodes, the first node whose datum
  -- the comparison matches with the key, or NULL if none does, and writes nothing.
  pub find-Located :
      (fuel : ℕ) {h : Nodes} {l : DataList} {xs : Cells}
      → IsList h l xs
      → length xs < fuel
      → Ensures (λ p g. (g ≡ h) × Located xs p) (find fuel cmp (some l) key h)
  unfolding find
  find-Located fuel {h} {l} {xs} is enough =
      rw is.head_is (find_loop_lem fuel h null xs enough is.links)
