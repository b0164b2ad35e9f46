-- ===== src/HashTable/Interface.antt =====
-- `HashTableInterface` of hash.c: a table with the table of its functions.
use epoll_net.Base.{ℕ, Option, none, some, ◌==◌, if◌then◌else◌}
use epoll_net.Memory.{Ptr, null, Prog, pure}
use epoll_net.DataList.{Nodes}
use epoll_net.HashTable
use epoll_net.HashTable.{HashTable, Fresh}

pub record HashTableInterface : Type 0 where
  pub hash : Option HashTable
  pub push : Fresh → ℕ → Ptr → HashTable → Prog Nodes (Ptr × HashTable)
  pub pop : ℕ → Ptr → HashTable → Prog Nodes (Ptr × HashTable)
  pub remove : ℕ → Ptr → HashTable → Prog Nodes (Ptr × HashTable)
  pub factor : HashTable → ℕ × ℕ
  pub clear : Option HashTable → Prog Nodes (Unit {0})

-- `cmp` is the caller's comparison, `fuel` a bound on the searches; the addresses are what `malloc`
-- returns for the interface, the table and its buckets.
module _ (cmp : Ptr → Ptr → ℕ) (fuel : ℕ) where
  unfoldable pub create : Ptr → Ptr → Ptr → ℕ → Option HashTableInterface
  create interface table buckets size =
      if interface == null
      then none
      else some (record {
        hash = HashTable.init table buckets size;
        push = HashTable.push;
        pop = HashTable.pop cmp fuel;
        remove = HashTable.remove cmp fuel;
        factor = HashTable.load_factor;
        clear = HashTable.clear fuel;
      })

-- `HashTableInterface_Destory`, but for the memory of the interface.
unfoldable pub destroy : Option HashTableInterface → Prog Nodes (Unit {0})
destroy none = pure tt
destroy (some i) = i.clear i.hash
