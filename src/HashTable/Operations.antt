-- ===== src/HashTable/Operations.antt =====
-- What each function of hash.c does to a table that stands for rows of cells.
use epoll_net.Base.{
  ℕ, ◌%◌, ◌<◌, ◌≡◌, ◌≢◌, refl, ap, subst, false, none, some, List, [], ◌∷◌, ◌++◌, arith, ◌==◌,
  length, ==_false,
}
use epoll_net.Memory.{Ptr, null, Prog}
use epoll_net.Memory.Ensures
use epoll_net.Memory.Ensures.{Ensures, ends}
use epoll_net.DataList
use epoll_net.DataList.{DataList, Nodes}
use epoll_net.DataList.Chain.{
  Cells, has, Distinct, IsList, SameOutside, contents, has-append, append-Distinct,
}
use epoll_net.DataList.Add.{add_tail-append}
use epoll_net.HashTable.{
  Bucket, HashTable, Fresh, at_index, at_hash, on_bucket, ensure_bucket, push_bucket, append, push,
  pop, remove, look_up, take_out,
}
use epoll_net.HashTable.Buckets.{
  flat, pick, others, replace, length-replace, replace-pick, IsBucket, Apart, length-AreBuckets,
  length-pick-le, at_bucket-AreBuckets, has-pick, pick-Distinct, replace-Distinct, IsTable,
}
use epoll_net.HashTable.Rows.{first_match, erase_cells, has-erase_cells, Distinct-erase_cells}
use epoll_net.HashTable.Search.{look_up-first_match, take_out-erase_cells}

module _ {h : Nodes} {t : HashTable} {size : ℕ} {xss : List Cells} (is : IsTable h t size xss)
    (hash : ℕ) where
  at_hash-done :
      (f : Bucket → Prog Nodes (Ptr × Bucket)) → at_hash f hash t h ≡ at_index f (hash % size) t h
  unfolding at_hash
  at_hash-done f =
      let go : (t.hashsize == 0) ≡ false = ground (arith, is.hashsize_is, is.some_buckets) in
      rw go (ap (λ n. at_index f (hash % n) t h) is.hashsize_is)

  -- A program on the bucket of a hash, which writes at `zs` only and leaves `ys` there.
  at_hash-IsTable :
      (f : Bucket → Prog Nodes (Ptr × Bucket)) (P : Ptr → Nodes → Type 0) (ys zs : Cells)
      → Distinct ys
      → Apart ys (flat (others (hash % size) xss))
      → Apart zs (flat (others (hash % size) xss))
      → ((b : Bucket)
          → IsBucket h b (pick (hash % size) xss)
          → Ensures (λ (r, b') g. IsBucket g b' ys × SameOutside zs h g × P r g) (f b h))
      → Ensures
          (λ (r, t') g.
            IsTable g t' size (replace (hash % size) ys xss) × SameOutside zs h g × P r g)
          (at_hash f hash t h)
  unfolding at_index
  at_hash-IsTable f P ys zs dys apart clear step =
      let i = hash % size in
      let below : i < length t.buckets = grind (arith, is.sized, is.some_buckets) in
      rw (at_hash-done f) (
        Ensures.chain
          (at_bucket-AreBuckets f P ys zs i t.buckets xss is.buckets_are below clear step)
          λ (r, bs') g (are, same, p). ends (
            record {
              buckets_are = are;
              distinct = replace-Distinct i ys xss dys (pick-Distinct i xss is.distinct).1 apart;
              sized = omega (
                arith,
                length-AreBuckets g bs' (replace i ys xss) are,
                length-replace i ys xss,
                length-AreBuckets h t.buckets xss is.buckets_are,
                is.sized,
              );
              hashsize_is = is.hashsize_is;
              some_buckets = is.some_buckets;
            },
            same,
            p,
          ))

-- `malloc` gives the objects of a bucket, and a node that is in none.
abbrev pub IsFresh : Fresh → List Cells → Type 0
IsFresh fresh xss =
    (fresh.hash_node ≢ null)
    × (fresh.list ≢ null)
    × (fresh.node ≢ null)
    × (has fresh.node (flat xss) ≡ false)

-- A bucket that has a list, and the list stands for `xs`.
abbrev Filled : Nodes → Bucket → Cells → Type 0
Filled h b xs = (l : DataList) × (b ≡ some (record { list = some l })) × IsList h l xs

ensure_bucket-Filled :
    {h : Nodes} (fresh : Fresh) (b : Bucket) (xs : Cells)
    → fresh.hash_node ≢ null
    → fresh.list ≢ null
    → IsBucket h b xs
    → Filled h (ensure_bucket fresh b) xs
unfolding ensure_bucket DataList.create
ensure_bucket-Filled {h} fresh none xs ne ne' is =
    rw (is, ==_false fresh.hash_node null ne, ==_false fresh.list null ne')
      (
        record { head = null; tail = null; count = 0 },
        refl,
        record {
          links = tt;
          distinct = tt;
          head_is = refl;
          tail_is = refl;
          count_is = omega arith;
        },
      )
ensure_bucket-Filled fresh (some node) xs ne ne' (l, has_list, is) =
    (l, ap (λ q. some (record { list = q })) has_list, is)

module _ {h : Nodes} (xs : Cells) where
  append-Added :
      (node datum : Ptr) {l : DataList}
      → node ≢ null
      → has node xs ≡ false
      → IsList h l xs
      → Ensures
          (λ (r, l') g.
            (r ≡ null)
            × IsList g l' (xs ++ (node, datum) ∷ [])
            × SameOutside (xs ++ (node, datum) ∷ []) h g)
          (append node datum l h)
  unfolding append
  append-Added node datum ne out is =
      Ensures.chain (add_tail-append node datum ne is out)
        λ l' g (added, same). ends (refl, added, same)

  push_bucket-append :
      (fresh : Fresh) (datum : Ptr) (b : Bucket)
      → fresh.hash_node ≢ null
      → fresh.list ≢ null
      → fresh.node ≢ null
      → has fresh.node xs ≡ false
      → IsBucket h b xs
      → Ensures
          (λ (r, b') g.
            IsBucket g b' (xs ++ (fresh.node, datum) ∷ [])
            × SameOutside (xs ++ (fresh.node, datum) ∷ []) h g
            × (r ≡ null))
          (push_bucket fresh datum b h)
  unfolding push_bucket
  push_bucket-append fresh datum b ne ne' ne'' out is =
      let (l, filled, is') = ensure_bucket-Filled fresh b xs ne ne' is in
      rw filled (
        Ensures.chain (append-Added fresh.node datum ne'' out is')
          λ (r, l') g (at, added, same). ends ((l', refl, added), same, at))

  -- A search in a bucket, and a removal from it, give what the row of its data gives.
  on_bucket-look_up :
      (cmp : Ptr → Ptr → ℕ) (fuel : ℕ) (key : Ptr) (b : Bucket)
      → length xs < fuel
      → IsBucket h b xs
      → Ensures
          (λ (r, b') g.
            IsBucket g b' xs
            × SameOutside [] h g
            × ((r ≡ first_match cmp key (contents xs)) × (g ≡ h)))
          (on_bucket null (look_up cmp fuel key) b h)
  unfolding on_bucket
  on_bucket-look_up cmp fuel key none enough is = rw is (ends (refl, λ a out. refl, (refl, refl)))
  on_bucket-look_up cmp fuel key (some node) enough (l, has_list, is) = rw has_list (
      Ensures.chain (look_up-first_match cmp fuel key xs is enough) λ (r, l') g (at, kept, same).
        rw (kept, same) (ends ((l, refl, is), λ a out. refl, (at, refl))))

  on_bucket-take_out :
      (cmp : Ptr → Ptr → ℕ) (fuel : ℕ) (key : Ptr) (b : Bucket)
      → length xs < fuel
      → IsBucket h b xs
      → Ensures
          (λ (r, b') g.
            IsBucket g b' (erase_cells cmp key xs)
            × SameOutside xs h g
            × (r ≡ first_match cmp key (contents xs)))
          (on_bucket null (take_out cmp fuel key) b h)
  unfolding on_bucket
  on_bucket-take_out cmp fuel key none enough is = rw is (ends (refl, λ a out. refl, refl))
  on_bucket-take_out cmp fuel key (some node) enough (l, has_list, is) = rw has_list (
      Ensures.chain (take_out-erase_cells cmp fuel key xs is enough)
        λ (r, l') g (at, left, same). ends ((l', refl, left), same, at))

module _ {h : Nodes} {t : HashTable} {size : ℕ} {xss : List Cells} (is : IsTable h t size xss)
    (hash : ℕ) where
  pub push-IsTable :
      (fresh : Fresh) (datum : Ptr)
      → IsFresh fresh xss
      → Ensures
          (λ (r, t') g.
            IsTable g t' size
              (replace (hash % size) (pick (hash % size) xss ++ (fresh.node, datum) ∷ []) xss)
            × (r ≡ null))
          (push fresh hash datum t h)
  unfolding push
  push-IsTable fresh datum (ne, ne', ne'', out) =
      let i = hash % size in
      let xs = pick i xss in
      let new = xs ++ (fresh.node, datum) ∷ [] in
      let (d, rest, apart) = pick-Distinct i xss is.distinct in
      let clear : Apart new (flat (others i xss)) = λ a m.
        ground
          (arith, apart a, has-append a xs ((fresh.node, datum) ∷ []), has-pick fresh.node i xss) in
      let out' : has fresh.node xs ≡ false = ground (arith, has-pick fresh.node i xss) in
      let dnew = append-Distinct xs ((fresh.node, datum) ∷ []) d (refl, tt) (λ a m. ground arith) in
      Ensures.weaken
        (at_hash-IsTable is hash (push_bucket fresh datum) (λ r g. r ≡ null) new new dnew clear
          clear (λ b isb. push_bucket-append xs fresh datum b ne ne' ne'' out' isb))
        λ (r, t') g (is', same, at). (is', at)

  module _ (cmp : Ptr → Ptr → ℕ) (fuel : ℕ) (key : Ptr) (enough : length (flat xss) < fuel) where
    pub pop-IsTable :
        Ensures
          (λ (r, t') g.
            IsTable g t' size xss
            × ((r ≡ first_match cmp key (contents (pick (hash % size) xss))) × (g ≡ h)))
          (pop cmp fuel hash key t h)
    unfolding pop
    pop-IsTable =
        let i = hash % size in
        let xs = pick i xss in
        let (d, rest, apart) = pick-Distinct i xss is.distinct in
        Ensures.weaken
          (at_hash-IsTable is hash (on_bucket null (look_up cmp fuel key))
            (λ r g. (r ≡ first_match cmp key (contents xs)) × (g ≡ h)) xs [] d apart (λ a m. cc)
            (λ b isb.
              on_bucket-look_up xs cmp fuel key b (omega (arith, length-pick-le i xss)) isb))
          λ (r, t') g (is', same, at).
            (subst (λ q. IsTable g t' size q) (replace-pick i xss) is', at)

    pub remove-IsTable :
        Ensures
          (λ (r, t') g.
            IsTable g t' size
              (replace (hash % size) (erase_cells cmp key (pick (hash % size) xss)) xss)
            × (r ≡ first_match cmp key (contents (pick (hash % size) xss))))
          (remove cmp fuel hash key t h)
    unfolding remove
    remove-IsTable =
        let i = hash % size in
        let xs = pick i xss in
        let left = erase_cells cmp key xs in
        let (d, rest, apart) = pick-Distinct i xss is.distinct in
        let apart' : Apart left (flat (others i xss)) =
          λ a m. ground (arith, has-erase_cells cmp key a xs, apart a) in
        Ensures.weaken
          (at_hash-IsTable is hash (on_bucket null (take_out cmp fuel key))
            (λ r g. r ≡ first_match cmp key (contents xs)) left xs
            (Distinct-erase_cells cmp key xs d) apart' apart
            (λ b isb.
              on_bucket-take_out xs cmp fuel key b (omega (arith, length-pick-le i xss)) isb))
          λ (r, t') g (is', same, at). (is', at)
