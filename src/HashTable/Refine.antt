-- ===== src/HashTable/Refine.antt =====
-- Sequences of calls of hash.c implement rows of data.
use epoll_net.Base.{
  ℕ, ◌+◌, ◌%◌, ◌<◌, ◌≡◌, refl, ap, List, [], ◌∷◌, ◌++◌, arith, length, length-append, map, ◌∙◌,
}
use epoll_net.Memory.{Ptr, null, Prog, pure, ◌>>=◌}
use epoll_net.Memory.Ensures
use epoll_net.Memory.Ensures.{Ensures, ends}
use epoll_net.DataList.{Nodes}
use epoll_net.DataList.Chain.{Cells, contents, contents-append}
use epoll_net.HashTable.{HashTable, push, pop, remove}
use epoll_net.HashTable.Buckets.{
  flat, pick, replace, length-replace-le, map-replace, contents-pick, IsTable,
}
use epoll_net.HashTable.Rows
use epoll_net.HashTable.Rows.{
  Rows, Op, push_op, pop_op, remove_op, first_match, erase_match, erase_cells, contents-erase_cells,
  has-erase_cells, length-erase_cells, Distinct-erase_cells,
}
use epoll_net.HashTable.Operations.{IsFresh, push-IsTable, pop-IsTable, remove-IsTable}

answered :
    (r r' : Ptr) (rs : List Ptr) (left : Rows) (spec : List Ptr × Rows)
    → r ≡ r'
    → (rs, left) ≡ spec
    → ◌≡◌ {A = List Ptr × Rows} (r ∷ rs, left) (r' ∷ spec.0, spec.1)
answered r r' rs left spec at e = rw at (ap (λ (q : List Ptr × Rows). (r' ∷ q.0, q.1)) e)

-- The rows behind a push and behind a removal.
module _ (i : ℕ) (xss : List Cells) where
  rows-append :
      (node d : Ptr)
      → map contents (replace i (pick i xss ++ (node, d) ∷ []) xss)
        ≡ replace i (pick i (map contents xss) ++ d ∷ []) (map contents xss)
  rows-append node d =
      map-replace i (pick i xss ++ (node, d) ∷ []) xss
      ∙ ap (λ q. replace i q (map contents xss))
          (contents-append (pick i xss) ((node, d) ∷ [])
            ∙ ap (λ q. q ++ d ∷ []) (contents-pick i xss))

  rows-erase_match :
      (cmp : Ptr → Ptr → ℕ) (key : Ptr)
      → map contents (replace i (erase_cells cmp key (pick i xss)) xss)
        ≡ replace i (erase_match cmp key (pick i (map contents xss))) (map contents xss)
  rows-erase_match cmp key =
      map-replace i (erase_cells cmp key (pick i xss)) xss
      ∙ ap (λ q. replace i q (map contents xss))
          (contents-erase_cells cmp key (pick i xss)
            ∙ ap (λ q. erase_match cmp key q) (contents-pick i xss))

module _ (cmp : Ptr → Ptr → ℕ) where
  -- A client's calls in order, with what each returns.
  pub run_calls : ℕ → HashTable → List Op → Prog Nodes (List Ptr × HashTable)
  run_calls fuel t [] = pure ([], t)
  run_calls fuel t (push_op fresh hash d ∷ ops) = do
    (r, t') ← push fresh hash d t
    (rs, t'') ← run_calls fuel t' ops
    pure (r ∷ rs, t'')
  run_calls fuel t (pop_op hash key ∷ ops) = do
    (r, t') ← pop cmp fuel hash key t
    (rs, t'') ← run_calls fuel t' ops
    pure (r ∷ rs, t'')
  run_calls fuel t (remove_op hash key ∷ ops) = do
    (r, t') ← remove cmp fuel hash key t
    (rs, t'') ← run_calls fuel t' ops
    pure (r ∷ rs, t'')

  -- `malloc` behaves at each push: what it gives is not NULL, and no node of the table.
  abbrev pub IsAllocated : ℕ → List Cells → List Op → Type 0
  IsAllocated size xss [] = Unit {0}
  IsAllocated size xss (push_op fresh hash d ∷ ops) =
      IsFresh fresh xss
      × IsAllocated size
          (replace (hash % size) (pick (hash % size) xss ++ (fresh.node, d) ∷ []) xss) ops
  IsAllocated size xss (pop_op hash key ∷ ops) = IsAllocated size xss ops
  IsAllocated size xss (remove_op hash key ∷ ops) =
      IsAllocated size (replace (hash % size) (erase_cells cmp key (pick (hash % size) xss)) xss)
        ops

  -- Any sequence of calls on a table returns what the rows of its data return: a key is searched for
  -- in the row of its hash only, and the oldest match is found or taken out. No call crashes or runs
  -- on, with more rounds than there are data and calls, and the table stands for what is left.
  pub run_calls_refines :
      (fuel size : ℕ) (ops : List Op) (xss : List Cells) {h : Nodes} {t : HashTable}
      → IsTable h t size xss
      → length (flat xss) + length ops < fuel
      → IsAllocated size xss ops
      → Ensures
          (λ (replies, t') g.
            (left : List Cells) × IsTable g t' size left
            × ((replies, map contents left) ≡ Rows.run cmp size (map contents xss) ops))
          (run_calls fuel t ops h)
  unfolding run_calls Rows.run
  run_calls_refines fuel size [] xss is enough alloc = ends (xss, is, refl)
  run_calls_refines fuel size (push_op fresh hash d ∷ ops) xss {h} {t} is enough alloc =
      let i = hash % size in
      let xs = pick i xss in
      let new = xs ++ (fresh.node, d) ∷ [] in
      let grown = replace i new xss in
      let fits : length (flat grown) + length ops < fuel =
        omega (arith, length-replace-le i new xss, length-append {0} xs ((fresh.node, d) ∷ [])) in
      Ensures.chain (push-IsTable is hash fresh d alloc.0) λ (r, t') g (is', at).
        Ensures.chain (run_calls_refines fuel size ops grown is' fits alloc.1)
          λ (rs, t'') k (left, done_is, e). ends (
            left,
            done_is,
            answered r null rs (map contents left) _ at (
                e ∙ ap (λ q. Rows.run cmp size q ops) (rows-append (hash % size) xss fresh.node d)),
          )
  run_calls_refines fuel size (pop_op hash key ∷ ops) xss is enough alloc =
      let fits : length (flat xss) < fuel = omega arith in
      Ensures.chain (pop-IsTable is hash cmp fuel key fits) λ (r, t') g (is', (at, same_memory)).
        Ensures.chain (run_calls_refines fuel size ops xss is' (omega arith) alloc)
          λ (rs, t'') k (left, done_is, e). ends (
            left,
            done_is,
            answered r _ rs (map contents left) _
                (at ∙ ap (first_match cmp key) (contents-pick (hash % size) xss)) e,
          )
  run_calls_refines fuel size (remove_op hash key ∷ ops) xss is enough alloc =
      let i = hash % size in
      let xs = pick i xss in
      let shrunk = replace i (erase_cells cmp key xs) xss in
      let fits : length (flat shrunk) + length ops < fuel =
        omega (
          arith,
          length-replace-le i (erase_cells cmp key xs) xss,
          length-erase_cells cmp key xs,
        ) in
      Ensures.chain (remove-IsTable is hash cmp fuel key (omega arith)) λ (r, t') g (is', at).
        Ensures.chain (run_calls_refines fuel size ops shrunk is' fits alloc)
          λ (rs, t'') k (left, done_is, e). ends (
            left,
            done_is,
            answered r _ rs (map contents left) _
                (at ∙ ap (first_match cmp key) (contents-pick i xss))
                (e ∙ ap (λ q. Rows.run cmp size q ops) (rows-erase_match i xss cmp key)),
          )
