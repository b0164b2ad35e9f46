-- ===== src/Tests/Tables.antt =====
-- Tables of hash.c with 4 buckets, where a key matches the datum of its own address.
use epoll_net.Base.{
  ℕ, ◌+◌, ◌≡◌, none, some, List, [], ◌∷◌, refl, arith, ◌==◌, if◌then◌else◌, true, map, replicate,
}
use epoll_net.Memory.{Ptr}
use epoll_net.Memory.Ensures.{Ensures}
use epoll_net.DataList.{Nodes}
use epoll_net.DataList.Chain.{Cells, contents}
use epoll_net.DataList.Clear.{Freed}
use epoll_net.HashTable.{HashTable, Fresh, init, clear}
use epoll_net.HashTable.Buckets.{IsTable}
use epoll_net.HashTable.Rows
use epoll_net.HashTable.Rows.{Op, push_op, pop_op, remove_op}
use epoll_net.HashTable.Refine.{run_calls, IsAllocated, run_calls_refines}
use epoll_net.HashTable.Dictionary.{AllAgree, look_ups, made, made-IsTable, run_calls-look_ups}
use epoll_net.HashTable.Release.{clear-Freed_table}
use epoll_net.Tests.Lists.{nodes, two, cells, two-IsList}

abbrev same : Ptr → Ptr → ℕ
same key d = if key == d then 0 else 1

abbrev fresh_at : Ptr → Fresh
fresh_at p = record { hash_node = p; list = p + 1; node = p + 2 }

-- 9 and 5 share a bucket.
abbrev calls : List Op
calls =
    push_op (fresh_at 100) 9 9
    ∷ push_op (fresh_at 200) 5 5
    ∷ pop_op 5 5
    ∷ remove_op 9 9
    ∷ pop_op 9 9
    ∷ []

same-hash : (key : Ptr) (d : Ptr) → (same key d == 0) ≡ true → key ≡ d
same-hash key d h = ground arith

calls-agree : AllAgree same (λ d. d) calls
calls-agree = (refl, (refl, (same-hash 5, (same-hash 9, (same-hash 9, tt)))))

calls-IsAllocated : IsAllocated same 4 (replicate 4 []) calls
calls-IsAllocated = (
  (omega arith, omega arith, omega arith, refl),
  ((omega arith, omega arith, omega arith, refl), tt),
)

run_calls-look_ups_example :
    (t : HashTable) × (init 10 20 4 ≡ some t)
    × ((h : Nodes)
        → Ensures
            (λ (replies, t') g. replies ≡ look_ups same [] calls)
            (run_calls same 6 t calls h))
run_calls-look_ups_example =
    run_calls-look_ups same (λ d. d) 6 4 10 20 calls (omega arith) (omega arith) (omega arith)
      (omega arith) calls-IsAllocated calls-agree

look_ups-calls : look_ups same [] calls ≡ 0 ∷ 0 ∷ 5 ∷ 9 ∷ 0 ∷ []
unfolding look_ups
look_ups-calls = refl

abbrev no_nodes : Nodes
no_nodes p = none

run_calls_refines_example :
    Ensures
      (λ (replies, t') g.
        (left : List Cells) × IsTable g t' 4 left
        × ((replies, map contents left) ≡ Rows.run same 4 (replicate 4 []) calls))
      (run_calls same 6 (made 4) calls no_nodes)
run_calls_refines_example =
    run_calls_refines same 6 4 calls (replicate 4 []) (made-IsTable no_nodes 4 (omega arith))
      (omega arith) calls-IsAllocated

-- A table whose first bucket has two nodes, and whose second has nothing.
abbrev two_buckets : HashTable
two_buckets = record { hashsize = 2; buckets = some (record { list = some two }) ∷ none ∷ [] }

two_buckets-IsTable : IsTable nodes two_buckets 2 (cells ∷ [] ∷ [])
two_buckets-IsTable = record {
  buckets_are = ((two, refl, two-IsList), (refl, tt));
  distinct = (refl, (refl, tt));
  sized = refl;
  hashsize_is = refl;
  some_buckets = omega arith;
}

clear-Freed_table_example : Ensures (λ _ g. Freed cells nodes g) (clear 3 (some two_buckets) nodes)
clear-Freed_table_example = clear-Freed_table 3 two_buckets-IsTable (omega arith)
