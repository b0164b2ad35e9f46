-- ===== src/HashTable.antt =====
-- hash.c: a table of buckets, each NULL or a node with a list of list.c. What is filed under a key is
-- found again by the caller's comparison; `hash` is the caller's hash of a key, an `int` as a bit
-- pattern. Buckets and their nodes are values, as nothing else points to them; the nodes of the lists
-- stand in memory. `hashTable_loadfactor` divides two floats, which is left to its caller here.
pub mod Buckets
pub mod Rows
pub mod Search
pub mod Operations
pub mod Refine
pub mod Dictionary
pub mod Release
pub mod Interface
use epoll_net.Base.{
  ℕ, zero, suc, ◌%◌, Option, none, some, List, [], ◌∷◌, ◌++◌, ◌==◌, if◌then◌else◌, replicate,
}
use epoll_net.Memory.{Ptr, null, Prog, crash, pure, ◌>>=◌, ◌>>◌}
use epoll_net.DataList
use epoll_net.DataList.{DataList, Nodes}

-- `struct tagHashNode`; the list is NULL when `DataList_Create` had no memory.
pub record HashNode : Type 0 where
  pub list : Option DataList

-- `none` is a bucket that is NULL.
abbrev pub Bucket : Type 0
Bucket = Option HashNode

-- `struct tagHashTable` without the caller's two functions.
pub record HashTable : Type 0 where
  pub hashsize : ℕ
  pub buckets : List Bucket

-- The two addresses are what `malloc` returns for the table and for its buckets.
unfoldable pub init : Ptr → Ptr → ℕ → Option HashTable
init table buckets size =
    if table == null
    then none
    else if buckets == null
    then none
    else some (record { hashsize = size; buckets = replicate size none })

-- `hashNode_create`, with what `malloc` returns for the node and for its list.
unfoldable pub create_node : Ptr → Ptr → Bucket
create_node node list = if node == null then none else some (record { list = DataList.create list })

-- What is done with a list; NULL is read through at once.
unfoldable pub on_list :
    {A : Type 0}
    → Option DataList
    → (DataList → Prog Nodes (A × DataList))
    → Prog Nodes (A × Bucket)
on_list none f = λ _. crash
on_list (some l) f = do (a, l') ← f l; pure (a, some (record { list = some l' }))

-- The same in a bucket, with what is returned where it is NULL.
unfoldable pub on_bucket :
    {A : Type 0} → A → (DataList → Prog Nodes (A × DataList)) → Bucket → Prog Nodes (A × Bucket)
unfolding on_list
on_bucket missing f none = pure (missing, none)
on_bucket missing f (some node) = on_list node.list f

-- `buckets[i]`, read and written back.
unfoldable pub at_bucket :
    {A : Type 0}
    → (Bucket → Prog Nodes (A × Bucket))
    → ℕ
    → List Bucket
    → Prog Nodes (A × List Bucket)
at_bucket f i [] = λ _. crash
at_bucket f zero (b ∷ bs) = do (a, b') ← f b; pure (a, b' ∷ bs)
at_bucket f (suc i) (b ∷ bs) = do (a, bs') ← at_bucket f i bs; pure (a, b ∷ bs')

unfoldable pub at_index :
    {A : Type 0} → (Bucket → Prog Nodes (A × Bucket)) → ℕ → HashTable → Prog Nodes (A × HashTable)
unfolding at_bucket
at_index f i t = do (a, bs) ← at_bucket f i t.buckets; pure (a, record t { buckets = bs })

-- The bucket of a hash; a table of no buckets divides by zero.
unfoldable pub at_hash :
    {A : Type 0} → (Bucket → Prog Nodes (A × Bucket)) → ℕ → HashTable → Prog Nodes (A × HashTable)
unfolding at_index
at_hash f hash t = if t.hashsize == 0 then (λ _. crash) else at_index f (hash % t.hashsize) t

-- What `malloc` returns for a bucket's node, for its list, and for a node of the list.
pub record Fresh : Type 0 where
  pub hash_node : Ptr
  pub list : Ptr
  pub node : Ptr

unfoldable pub append : Ptr → Ptr → DataList → Prog Nodes (Ptr × DataList)
append node datum l = do l' ← DataList.add_tail node l datum; pure (null, l')

-- The bucket that `hashTable_push` appends to.
unfoldable pub ensure_bucket : Fresh → Bucket → Bucket
unfolding create_node
ensure_bucket fresh none = create_node fresh.hash_node fresh.list
ensure_bucket fresh (some node) = some node

unfoldable pub push_bucket : Fresh → Ptr → Bucket → Prog Nodes (Ptr × Bucket)
unfolding on_bucket append ensure_bucket
push_bucket fresh datum b = on_bucket null (append fresh.node datum) (ensure_bucket fresh b)

-- `hash` is that of the key; the result is NULL, as nothing is returned.
unfoldable pub push : Fresh → ℕ → Ptr → HashTable → Prog Nodes (Ptr × HashTable)
unfolding at_hash push_bucket
push fresh hash datum = at_hash (push_bucket fresh datum) hash

module _ (cmp : Ptr → Ptr → ℕ) (fuel : ℕ) where
  unfoldable pub look_up : Ptr → DataList → Prog Nodes (Ptr × DataList)
  look_up key l = do
    node ← DataList.find fuel cmp (some l) key
    datum ← DataList.get_current_data node
    pure (datum, l)

  -- `hashTable_pop`, which takes nothing out.
  unfoldable pub pop : ℕ → Ptr → HashTable → Prog Nodes (Ptr × HashTable)
  unfolding at_hash on_bucket look_up
  pop hash key = at_hash (on_bucket null (look_up key)) hash

  unfoldable pub take_out : Ptr → DataList → Prog Nodes (Ptr × DataList)
  take_out key l = do
    node ← DataList.find fuel cmp (some l) key
    if node == null then pure (null, l) else DataList.remove_node l node

  unfoldable pub remove : ℕ → Ptr → HashTable → Prog Nodes (Ptr × HashTable)
  unfolding at_hash on_bucket take_out
  remove hash key = at_hash (on_bucket null (take_out key)) hash

-- `DataList_Delete` of each bucket that is not NULL.
unfoldable pub clear_buckets : ℕ → List Bucket → Prog Nodes (Unit {0})
clear_buckets fuel [] = pure tt
clear_buckets fuel (none ∷ bs) = clear_buckets fuel bs
clear_buckets fuel (some node ∷ bs) = do DataList.delete fuel node.list; clear_buckets fuel bs

unfoldable pub clear : ℕ → Option HashTable → Prog Nodes (Unit {0})
unfolding clear_buckets
clear fuel none = pure tt
clear fuel (some t) = clear_buckets fuel t.buckets

-- `touched` of `hashTable_loadfactor`.
unfoldable pub touched : List Bucket → ℕ
touched [] = 0
touched (none ∷ bs) = touched bs
touched (some node ∷ bs) = suc (touched bs)

-- The two numbers whose quotient is returned.
unfoldable pub load_factor : HashTable → ℕ × ℕ
unfolding touched
load_factor t = (touched t.buckets, t.hashsize)
