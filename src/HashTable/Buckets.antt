-- ===== src/HashTable/Buckets.antt =====
-- What the buckets of a table stand for: a list of cells each, with no node in two of them.
use epoll_net.Base.{
  ℕ, zero, suc, ◌+◌, ◌<◌, ◌≡◌, refl, ap, true, false, ◌||◌, none, some, List, [], ◌∷◌, ◌++◌, arith,
  length, length-append, map, ◌≤◌,
}
use epoll_net.Memory.{Ptr, null, Prog}
use epoll_net.Memory.Ensures
use epoll_net.Memory.Ensures.{Ensures, ends}
use epoll_net.DataList.{DataList, Nodes}
use epoll_net.DataList.Chain.{
  Cells, has, Distinct, IsList, SameOutside, contents, frame, has-append, Distinct-append,
  append-Distinct,
}
use epoll_net.HashTable.{Bucket, HashTable, at_bucket}

abbrev pub flat : List Cells → Cells
flat [] = []
flat (xs ∷ xss) = xs ++ flat xss

-- The list at an index, those at the others, and a replacement of the one at an index.
module _ {A : Type 0} where
  abbrev pub pick : ℕ → List (List A) → List A
  pick i [] = []
  pick zero (xs ∷ xss) = xs
  pick (suc i) (xs ∷ xss) = pick i xss

  abbrev pub others : ℕ → List (List A) → List (List A)
  others i [] = []
  others zero (xs ∷ xss) = xss
  others (suc i) (xs ∷ xss) = xs ∷ others i xss

  abbrev pub replace : ℕ → List A → List (List A) → List (List A)
  replace i ys [] = []
  replace zero ys (xs ∷ xss) = ys ∷ xss
  replace (suc i) ys (xs ∷ xss) = xs ∷ replace i ys xss

  pub length-replace :
      (i : ℕ) (ys : List A) (xss : List (List A)) → length (replace i ys xss) ≡ length xss
  length-replace i ys [] = refl
  length-replace zero ys (xs ∷ xss) = refl
  length-replace (suc i) ys (xs ∷ xss) = omega (arith, length-replace i ys xss)

  pub replace-pick : (i : ℕ) (xss : List (List A)) → replace i (pick i xss) xss ≡ xss
  replace-pick i [] = refl
  replace-pick zero (xs ∷ xss) = refl
  replace-pick (suc i) (xs ∷ xss) = ap (λ t. xs ∷ t) (replace-pick i xss)

abbrev pub IsBucket : Nodes → Bucket → Cells → Type 0
IsBucket h none xs = xs ≡ []
IsBucket h (some node) xs = (l : DataList) × (node.list ≡ some l) × IsList h l xs

abbrev pub AreBuckets : Nodes → List Bucket → List Cells → Type 0
AreBuckets h [] [] = Unit {0}
AreBuckets h [] (xs ∷ xss) = ⊥
AreBuckets h (b ∷ bs) [] = ⊥
AreBuckets h (b ∷ bs) (xs ∷ xss) = IsBucket h b xs × AreBuckets h bs xss

-- No address of the first cells is one of the second.
abbrev pub Apart : Cells → Cells → Type 0
Apart xs ys = (a : Ptr) → has a xs ≡ true → has a ys ≡ false

pub IsList-frame :
    {h g : Nodes} {l : DataList} (xs : Cells)
    → IsList h l xs
    → ((a : Ptr) → has a xs ≡ true → g a ≡ h a)
    → IsList g l xs
IsList-frame xs is same = record {
  links = frame null null xs is.links same;
  distinct = is.distinct;
  head_is = is.head_is;
  tail_is = is.tail_is;
  count_is = is.count_is;
}

module _ {h g : Nodes} (zs : Cells) (same : SameOutside zs h g) where
  pub IsBucket-frame : (b : Bucket) (xs : Cells) → IsBucket h b xs → Apart zs xs → IsBucket g b xs
  IsBucket-frame none xs is apart = is
  IsBucket-frame (some node) xs (l, has_list, is) apart =
      (l, has_list, IsList-frame xs is (λ a i. same a (ground (arith, apart a))))

  pub AreBuckets-frame :
      (bs : List Bucket) (xss : List Cells)
      → AreBuckets h bs xss
      → Apart zs (flat xss)
      → AreBuckets g bs xss
  AreBuckets-frame [] [] is apart = tt
  AreBuckets-frame [] (xs ∷ xss) is apart = elim is [ ]
  AreBuckets-frame (b ∷ bs) [] is apart = elim is [ ]
  AreBuckets-frame (b ∷ bs) (xs ∷ xss) (is, rest) apart = (
    IsBucket-frame b xs is (λ a i. ground (arith, apart a i, has-append a xs (flat xss))),
    AreBuckets-frame bs xss rest (λ a i. ground (arith, apart a i, has-append a xs (flat xss))),
  )

pub length-AreBuckets :
    (h : Nodes) (bs : List Bucket) (xss : List Cells) → AreBuckets h bs xss → length xss ≡ length bs
length-AreBuckets h [] [] is = omega arith
length-AreBuckets h [] (xs ∷ xss) is = elim is [ ]
length-AreBuckets h (b ∷ bs) [] is = elim is [ ]
length-AreBuckets h (b ∷ bs) (xs ∷ xss) is = omega (arith, length-AreBuckets h bs xss is.1)

-- A program on the bucket at an index that writes at `zs` only leaves the other buckets as they are.
module _ {A : Type 0} (f : Bucket → Prog Nodes (A × Bucket)) (P : A → Nodes → Type 0)
    (ys zs : Cells) {h : Nodes} where
  pub at_bucket-AreBuckets :
      (i : ℕ) (bs : List Bucket) (xss : List Cells)
      → AreBuckets h bs xss
      → i < length bs
      → Apart zs (flat (others i xss))
      → ((b : Bucket)
          → IsBucket h b (pick i xss)
          → Ensures (λ (a, b') g. IsBucket g b' ys × SameOutside zs h g × P a g) (f b h))
      → Ensures
          (λ (a, bs') g. AreBuckets g bs' (replace i ys xss) × SameOutside zs h g × P a g)
          (at_bucket f i bs h)
  unfolding at_bucket
  at_bucket-AreBuckets i [] xss is below apart step = absurd (omega arith)
  at_bucket-AreBuckets zero (b ∷ bs) [] is below apart step = elim is [ ]
  at_bucket-AreBuckets (suc i) (b ∷ bs) [] is below apart step = elim is [ ]
  at_bucket-AreBuckets zero (b ∷ bs) (xs ∷ xss) (is, rest) below apart step =
      Ensures.chain (step b is) λ (a, b') g (is', same, p).
        ends ((is', AreBuckets-frame zs same bs xss rest apart), same, p)
  at_bucket-AreBuckets (suc i) (b ∷ bs) (xs ∷ xss) (is, rest) below apart step =
      Ensures.chain
        (at_bucket-AreBuckets i bs xss rest (omega arith)
          (λ a m. ground (arith, apart a m, has-append a xs (flat (others i xss)))) step)
        λ (a, bs') g (rest', same, p). ends (
          (
            IsBucket-frame zs same b xs is
                (λ a m. ground (arith, apart a m, has-append a xs (flat (others i xss)))),
            rest',
          ),
          same,
          p,
        )

pub has-pick :
    (a : Ptr) (i : ℕ) (xss : List Cells)
    → has a (flat xss) ≡ (has a (pick i xss) || has a (flat (others i xss)))
has-pick a i [] = refl
has-pick a zero (xs ∷ xss) = has-append a xs (flat xss)
has-pick a (suc i) (xs ∷ xss) =
    ground
      (arith, has-append a xs (flat xss), has-append a xs (flat (others i xss)), has-pick a i xss)

has-replace :
    (a : Ptr) (i : ℕ) (ys : Cells) (xss : List Cells)
    → has a ys ≡ false
    → has a (flat (others i xss)) ≡ false
    → has a (flat (replace i ys xss)) ≡ false
has-replace a i ys [] out rest = refl
has-replace a zero ys (xs ∷ xss) out rest = ground (arith, has-append a ys (flat xss))
has-replace a (suc i) ys (xs ∷ xss) out rest = ground (
  arith,
  has-append a xs (flat (replace i ys xss)),
  has-append a xs (flat (others i xss)),
  has-replace a i ys xss,
)

-- No node is in two buckets: at an index and elsewhere.
pub pick-Distinct :
    (i : ℕ) (xss : List Cells)
    → Distinct (flat xss)
    → Distinct (pick i xss)
      × Distinct (flat (others i xss))
      × Apart (pick i xss) (flat (others i xss))
pick-Distinct i [] d = (tt, tt, λ a m. refl)
pick-Distinct zero (xs ∷ xss) d = Distinct-append xs (flat xss) d
pick-Distinct (suc i) (xs ∷ xss) d =
    let (dx, dr, apart) = Distinct-append xs (flat xss) d in
    let (dp, rest, clear) = pick-Distinct i xss dr in
    (
      dp,
      append-Distinct xs (flat (others i xss)) dx rest
          (λ a m. ground (arith, apart a m, has-pick a i xss)),
      λ a m.
          ground
            (arith, has-append a xs (flat (others i xss)), apart a, has-pick a i xss, clear a m),
    )

pub replace-Distinct :
    (i : ℕ) (ys : Cells) (xss : List Cells)
    → Distinct ys
    → Distinct (flat (others i xss))
    → Apart ys (flat (others i xss))
    → Distinct (flat (replace i ys xss))
replace-Distinct i ys [] dy d apart = tt
replace-Distinct zero ys (xs ∷ xss) dy d apart = append-Distinct ys (flat xss) dy d apart
replace-Distinct (suc i) ys (xs ∷ xss) dy d apart =
    let (dx, rest, clear) = Distinct-append xs (flat (others i xss)) d in
    let apart' : Apart ys (flat (others i xss)) =
      λ a m. ground (arith, apart a m, has-append a xs (flat (others i xss))) in
    append-Distinct xs (flat (replace i ys xss)) dx (replace-Distinct i ys xss dy rest apart')
      (λ a m.
        has-replace a i ys xss (ground (arith, apart a, has-append a xs (flat (others i xss))))
          (clear a m))

pub length-replace-le :
    (i : ℕ) (ys : Cells) (xss : List Cells)
    → length (flat (replace i ys xss)) + length (pick i xss) ≤ length (flat xss) + length ys
length-replace-le i ys [] = omega arith
length-replace-le zero ys (xs ∷ xss) =
    omega (arith, length-append {0} ys (flat xss), length-append {0} xs (flat xss))
length-replace-le (suc i) ys (xs ∷ xss) = omega (
  arith,
  length-append {0} xs (flat (replace i ys xss)),
  length-append {0} xs (flat xss),
  length-replace-le i ys xss,
)

pub length-pick-le : (i : ℕ) (xss : List Cells) → length (pick i xss) ≤ length (flat xss)
length-pick-le i [] = omega arith
length-pick-le zero (xs ∷ xss) = omega (arith, length-append {0} xs (flat xss))
length-pick-le (suc i) (xs ∷ xss) =
    omega (arith, length-append {0} xs (flat xss), length-pick-le i xss)

pub map-replace :
    (i : ℕ) (ys : Cells) (xss : List Cells)
    → map contents (replace i ys xss) ≡ replace i (contents ys) (map contents xss)
map-replace i ys [] = refl
map-replace zero ys (xs ∷ xss) = refl
map-replace (suc i) ys (xs ∷ xss) = ap (λ t. contents xs ∷ t) (map-replace i ys xss)

pub contents-pick : (i : ℕ) (xss : List Cells) → contents (pick i xss) ≡ pick i (map contents xss)
contents-pick i [] = refl
contents-pick zero (xs ∷ xss) = refl
contents-pick (suc i) (xs ∷ xss) = contents-pick i xss

-- The table has `size` buckets, and stands for the cells `xss`, bucket by bucket.
pub record IsTable (h : Nodes) (t : HashTable) (size : ℕ) (xss : List Cells) : Type 0 where
  pub buckets_are : AreBuckets h t.buckets xss
  pub distinct : Distinct (flat xss)
  pub sized : length t.buckets ≡ size
  pub hashsize_is : t.hashsize ≡ size
  pub some_buckets : 0 < size
