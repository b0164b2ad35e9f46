-- ===== src/DataList/Chain.antt =====
-- What a list stands for: the addresses and data of its nodes in order, and the links between them.
use epoll_net.Base.{
  ◌≡◌, refl, ap, Bool, true, false, ◌||◌, some, List, [], ◌∷◌, ◌++◌, arith, ◌==◌, ==_refl, length,
  ◌%◌, ◌^◌, Option,
}
use epoll_net.Memory.{Ptr, null, write}
use epoll_net.Memory.Holds.{Holds, Holds-write}
use epoll_net.DataList.{DataNode, DataList, data_node, Nodes}

abbrev pub Cells : Type 0
Cells = List (Ptr × Ptr)

abbrev pub has : Ptr → Cells → Bool
has a [] = false
has a ((p, _) ∷ xs) = (p == a) || has a xs

abbrev pub Distinct : Cells → Type 0
Distinct [] = Unit
Distinct ((p, _) ∷ xs) = (has p xs ≡ false) × Distinct xs

abbrev pub SameOutside : Cells → Nodes → Nodes → Type 0
SameOutside xs h g = (a : Ptr) → has a xs ≡ false → g a ≡ h a

-- The first address, or `stop`; the last address, or `before`.
abbrev pub first : Ptr → Cells → Ptr
first stop [] = stop
first stop ((p, _) ∷ _) = p

abbrev pub last : Ptr → Cells → Ptr
last before [] = before
last before ((p, _) ∷ xs) = last p xs

-- The nodes are linked both ways, come after `before` and end at `stop`.
abbrev pub Chain : Nodes → Ptr → Ptr → Cells → Type 0
Chain h before stop [] = Unit
Chain h before stop ((p, d) ∷ xs) =
    Holds h p (data_node d (first stop xs) before) × Chain h p stop xs

pub record IsList (h : Nodes) (l : DataList) (xs : Cells) : Type 0 where
  pub links : Chain h null null xs
  pub distinct : Distinct xs
  pub head_is : l.head ≡ first null xs
  pub tail_is : l.tail ≡ last null xs
  pub count_is : l.count ≡ length xs % 2 ^ 32

pub has-append : (a : Ptr) (xs ys : Cells) → has a (xs ++ ys) ≡ (has a xs || has a ys)
has-append a [] ys = refl
has-append a ((p, d) ∷ xs) ys = ground (arith, has-append a xs ys)

pub first-append : (s : Ptr) (xs ys : Cells) → first s (xs ++ ys) ≡ first (first s ys) xs
first-append s [] ys = refl
first-append s (x ∷ xs) ys = refl

pub first_any :
    (s t : Ptr) (xs : Cells) (y : Ptr × Ptr) (ys : Cells)
    → first s (xs ++ y ∷ ys) ≡ first t (xs ++ y ∷ ys)
first_any s t [] y ys = refl
first_any s t (x ∷ xs) y ys = refl

pub last-append : (b : Ptr) (xs ys : Cells) → last b (xs ++ ys) ≡ last (last b xs) ys
last-append b [] ys = refl
last-append b ((p, d) ∷ xs) ys = last-append p xs ys

module _ {h g : Nodes} where
  -- A chain survives any change that spares its own nodes.
  pub frame :
      (before stop : Ptr) (xs : Cells)
      → Chain h before stop xs
      → ((a : Ptr) → has a xs ≡ true → g a ≡ h a)
      → Chain g before stop xs
  frame b s [] c same = tt
  frame b s ((p, d) ∷ xs) c same =
      (ground (arith, c.0, same p), frame p s xs c.1 (λ a i. same a (ground arith)))

-- The last of some cells is among them, and so is the first.
pub last-mem : (b : Ptr) (x : Ptr × Ptr) (xs : Cells) → has (last b (x ∷ xs)) (x ∷ xs) ≡ true
last-mem b (p, d) [] = ground (arith, ==_refl p)
last-mem b (p, d) (y ∷ ys) = ground (arith, last-mem p y ys)

pub first-mem :
    (s : Ptr) (us : Cells) (y : Ptr × Ptr) → has (first s (us ++ y ∷ [])) (us ++ y ∷ []) ≡ true
first-mem s [] (q, d) = ground (arith, ==_refl q)
first-mem s ((p, d) ∷ us) y = ground (arith, ==_refl p)

pub frame-write :
    (h : Nodes) (before stop : Ptr) (xs : Cells) (q : Ptr) (o : Option DataNode)
    → Chain h before stop xs
    → has q xs ≡ false
    → Chain (write h q o) before stop xs
unfolding write
frame-write h b s xs q o c out = frame b s xs c (λ a i. ground arith)

-- Cutting a chain in two, and joining two.
pub Chain-append :
    (h : Nodes) (before stop : Ptr) (xs ys : Cells)
    → Chain h before stop (xs ++ ys)
    → Chain h before (first stop ys) xs × Chain h (last before xs) stop ys
Chain-append h b s [] ys c = (tt, c)
Chain-append h b s ((p, d) ∷ xs) ys c =
    let (l, r) = Chain-append h p s xs ys c.1 in ((ground (arith, c.0, first-append s xs ys), l), r)

pub append-Chain :
    (h : Nodes) (before stop : Ptr) (xs ys : Cells)
    → Chain h before (first stop ys) xs
    → Chain h (last before xs) stop ys
    → Chain h before stop (xs ++ ys)
append-Chain h b s [] ys c e = e
append-Chain h b s ((p, d) ∷ xs) ys c e =
    (ground (arith, c.0, first-append s xs ys), append-Chain h p s xs ys c.1 e)

pub Distinct-append :
    (xs ys : Cells)
    → Distinct (xs ++ ys)
    → Distinct xs × Distinct ys × ((a : Ptr) → has a xs ≡ true → has a ys ≡ false)
Distinct-append [] ys d = (tt, d, λ a i. cc)
Distinct-append ((p, e) ∷ xs) ys d =
    let (l, r, apart) = Distinct-append xs ys d.1 in
    (
      (ground (arith, d.0, has-append p xs ys), l),
      r,
      λ a i. ground (arith, d.0, has-append p xs ys, apart a),
    )

pub append-Distinct :
    (xs ys : Cells)
    → Distinct xs
    → Distinct ys
    → ((a : Ptr) → has a xs ≡ true → has a ys ≡ false)
    → Distinct (xs ++ ys)
append-Distinct [] ys d e apart = e
append-Distinct ((p, v) ∷ xs) ys d e apart = (
  ground (arith, d.0, has-append p xs ys, apart p),
  append-Distinct xs ys d.1 e (λ a i. apart a (ground arith)),
)

-- Writing the `next` field of the last node, and the `prev` field of the first.
module _ (h : Nodes) (before stop target q e : Ptr) (us : Cells) where
  pub relink_next :
      Chain h before stop (us ++ (q, e) ∷ [])
      → has q us ≡ false
      → Chain
          (write h q (some (data_node e target (last before us))))
          before
          target
          (us ++ (q, e) ∷ [])
  relink_next c out =
      let (l, r) = Chain-append h before stop us ((q, e) ∷ []) c in
      append-Chain _ before target us ((q, e) ∷ []) (frame-write h before q us q _ l out)
        (Holds-write r.0 _, tt)

  pub relink_prev :
      Chain h before stop ((q, e) ∷ us)
      → has q us ≡ false
      → Chain (write h q (some (data_node e (first stop us) target))) target stop ((q, e) ∷ us)
  relink_prev c out = (Holds-write c.0 _, frame-write h q stop us q _ c.1 out)

-- The data of some cells, in order.
abbrev pub contents : Cells → List Ptr
contents [] = []
contents ((_, d) ∷ xs) = d ∷ contents xs

pub contents-append : (xs ys : Cells) → contents (xs ++ ys) ≡ contents xs ++ contents ys
contents-append [] ys = refl
contents-append ((p, d) ∷ xs) ys = ap (λ t. d ∷ t) (contents-append xs ys)

pub length-contents : (xs : Cells) → length (contents xs) ≡ length xs
length-contents [] = refl
length-contents ((p, d) ∷ xs) = omega (arith, length-contents xs)
