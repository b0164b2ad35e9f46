-- ===== src/DataList/Clear.antt =====
-- `DataList_Clear` and `DataList_Delete` (list.c).
use epoll_net.Base.{
  ℕ, zero, suc, ◌<◌, ◌≡◌, refl, true, false, inl, inr, none, some, [], ◌∷◌, ◌++◌, arith, ◌==◌,
  length, length-append, snoc_view, ap, ◌≢◌, ==_false,
}
use epoll_net.Memory.{Ptr, null, done, resume}
use epoll_net.Memory.Ensures
use epoll_net.Memory.Ensures.{Ensures, ends}
use epoll_net.DataList.{DataList, Nodes, remove_tail, clear, delete}
use epoll_net.DataList.RemoveTail.{remove_tail-snoc}
use epoll_net.DataList.Chain.{Cells, has, IsList, SameOutside, has-append, Distinct-append}

-- Every node of `xs` was given back, and no other address was written.
abbrev pub Freed : Cells → Nodes → Nodes → Type 0
Freed xs h g = ((a : Ptr) → has a xs ≡ true → g a ≡ none) × SameOutside xs h g

Freed-nil : (h : Nodes) → Freed [] h h
Freed-nil h = (λ a i. cc, λ a o. refl)

-- One node more: it was given back before the others, which are elsewhere.
Freed-snoc :
    (h g k : Nodes) (ys : Cells) (p d : Ptr)
    → has p ys ≡ false
    → g p ≡ none
    → SameOutside (ys ++ (p, d) ∷ []) h g
    → Freed ys g k
    → Freed (ys ++ (p, d) ∷ []) h k
Freed-snoc h g k ys p d out gone same freed = (
  λ a i. ground (arith, has-append a ys ((p, d) ∷ []), freed.0 a, freed.1 a),
  λ a o. ground (arith, has-append a ys ((p, d) ∷ []), freed.1 a, same a),
)

clear-stop : (fuel : ℕ) (h : Nodes) (l : DataList) → l.head ≡ null → clear (suc fuel) l h ≡ done l h
unfolding clear
clear-stop fuel h l e = let at : (l.head == null) ≡ true = ground arith in rw at refl

clear-next :
    (fuel : ℕ) (h : Nodes) (l : DataList)
    → l.head ≢ null
    → clear (suc fuel) l h ≡ resume (λ r. clear fuel r.1) (remove_tail l h)
unfolding clear
clear-next fuel h l ne = rw (==_false l.head null ne)

head_ne_null :
    (h : Nodes) (l : DataList) (ys : Cells) (p d : Ptr)
    → IsList h l (ys ++ (p, d) ∷ [])
    → l.head ≢ null
head_ne_null h l [] p d is = ground (arith, is.links.0, is.head_is)
head_ne_null h l ((q, e) ∷ ys) p d is = ground (arith, is.links.0, is.head_is)

clear_lem :
    (fuel : ℕ) (h : Nodes) (l : DataList) (xs : Cells)
    → length xs < fuel
    → IsList h l xs
    → Ensures (λ l' g. IsList g l' [] × Freed xs h g) (clear fuel l h)
clear_lem zero h l xs enough is = absurd (omega arith)
clear_lem (suc fuel) h l xs enough is = elim (snoc_view xs) [
  | inl e ↦
      let is' : IsList h l [] = rw e at is in
      rw (clear-stop fuel h l is'.head_is, e) (ends (is', Freed-nil h))
  | inr (ys, (p, d), e) ↦
      let is' : IsList h l (ys ++ (p, d) ∷ []) = rw e at is in
      rw (clear-next fuel h l (head_ne_null h l ys p d is'), e)
        (Ensures.chain (remove_tail-snoc ys p d is') λ r g (_, rest, gone, same).
          Ensures.weaken
            (clear_lem fuel g r.1 ys (omega (arith, length-append ys ((p, d) ∷ []), ap length e))
              rest)
            λ l' k (empty, freed). (
              empty,
              Freed-snoc h g k ys p d
                  (ground (arith, (Distinct-append ys ((p, d) ∷ []) is'.distinct).2 p)) gone same
                  freed,
            ))
]

-- `DataList_Clear`, with more rounds than the list has nodes, ends with the empty list, gives back
-- every node of the list and writes at no other address.
pub clear-Freed :
    (fuel : ℕ) {h : Nodes} {l : DataList} {xs : Cells}
    → IsList h l xs
    → length xs < fuel
    → Ensures (λ l' g. IsList g l' [] × Freed xs h g) (clear fuel l h)
clear-Freed fuel {h} {l} {xs} is enough = clear_lem fuel h l xs enough is

-- So does `DataList_Delete`, which then gives the list's own object back.
pub delete-Freed :
    (fuel : ℕ) {h : Nodes} {l : DataList} {xs : Cells}
    → IsList h l xs
    → length xs < fuel
    → Ensures (λ _ g. Freed xs h g) (delete fuel (some l) h)
unfolding delete
delete-Freed fuel {h} {l} {xs} is enough =
    Ensures.chain (clear_lem fuel h l xs enough is) λ l' g (_, freed). ends freed
