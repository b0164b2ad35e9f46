-- ===== src/HashTable/Release.antt =====
-- `hashTable_clear` and the load factor.
use epoll_net.Base.{
  ℕ, ◌<◌, ◌≡◌, refl, false, true, none, some, List, [], ◌∷◌, ◌++◌, arith, length, length-append,
}
use epoll_net.Memory.{Ptr}
use epoll_net.Memory.Ensures
use epoll_net.Memory.Ensures.{Ensures, ends}
use epoll_net.DataList.{Nodes}
use epoll_net.DataList.Chain.{Cells, has, Distinct, has-append, Distinct-append}
use epoll_net.DataList.Clear.{Freed, delete-Freed}
use epoll_net.HashTable.{Bucket, HashTable, clear, clear_buckets}
use epoll_net.HashTable.Buckets.{flat, AreBuckets, AreBuckets-frame, IsTable}

-- One bucket and then the others.
Freed-append :
    (h g k : Nodes) (xs ys : Cells)
    → ((a : Ptr) → has a xs ≡ true → has a ys ≡ false)
    → Freed xs h g
    → Freed ys g k
    → Freed (xs ++ ys) h k
Freed-append h g k xs ys apart first second = (
  λ a i. ground (arith, has-append a xs ys, apart a, first.0 a, second.0 a, second.1 a),
  λ a o. ground (arith, has-append a xs ys, first.1 a, second.1 a),
)

clear_buckets-Freed :
    (fuel : ℕ) (bs : List Bucket) (xss : List Cells) {h : Nodes}
    → AreBuckets h bs xss
    → Distinct (flat xss)
    → length (flat xss) < fuel
    → Ensures (λ _ g. Freed (flat xss) h g) (clear_buckets fuel bs h)
unfolding clear_buckets
clear_buckets-Freed fuel [] [] is d enough = ends (λ a i. cc, λ a o. refl)
clear_buckets-Freed fuel [] (xs ∷ xss) is d enough = elim is [ ]
clear_buckets-Freed fuel (b ∷ bs) [] is d enough = elim is [ ]
clear_buckets-Freed fuel (none ∷ bs) (xs ∷ xss) (empty, rest) d enough =
    rw empty (clear_buckets-Freed fuel bs xss rest (rw empty at d) (rw empty at enough))
clear_buckets-Freed fuel (some node ∷ bs) (xs ∷ xss) {h} ((l, has_list, is), rest) d enough =
    let (dx, dr, apart) = Distinct-append xs (flat xss) d in
    let small : length xs < fuel = omega (arith, length-append {0} xs (flat xss)) in
    let small' : length (flat xss) < fuel = omega (arith, length-append {0} xs (flat xss)) in
    rw has_list (
      Ensures.chain (delete-Freed fuel is small) λ _ g freed.
        Ensures.weaken
          (clear_buckets-Freed fuel bs xss (AreBuckets-frame xs freed.1 bs xss rest apart) dr
            small')
          λ _ k freed'. Freed-append h g k xs (flat xss) apart freed freed')

-- `hashTable_clear`, with more rounds than the table has data, ends with every node of every bucket
-- given back, and writes at no other address.
pub clear-Freed_table :
    (fuel : ℕ) {h : Nodes} {t : HashTable} {size : ℕ} {xss : List Cells}
    → IsTable h t size xss
    → length (flat xss) < fuel
    → Ensures (λ _ g. Freed (flat xss) h g) (clear fuel (some t) h)
unfolding clear
clear-Freed_table fuel {xss} is enough =
    clear_buckets-Freed fuel _ xss is.buckets_are is.distinct enough
