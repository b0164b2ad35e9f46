-- ===== src/HashTable/Rows.antt =====
-- What a client of the table sees: rows of data, one for each remainder of the hash, each in the order
-- in which its data came. A key is searched for in its own row only.
use epoll_net.Base.{
  ℕ, ◌%◌, ◌≡◌, refl, ap, false, true, List, [], ◌∷◌, ◌++◌, arith, ◌==◌, if◌then◌else◌, inl, inr,
  Bool-cases, length, ◌≤◌,
}
use epoll_net.Memory.{Ptr, null}
use epoll_net.DataList.Chain.{Cells, has, Distinct, contents}
use epoll_net.DataList.Find.{NoMatch}
use epoll_net.HashTable.{Fresh}
use epoll_net.HashTable.Buckets.{pick, replace}

abbrev pub Rows : Type 0
Rows = List (List Ptr)

-- A client's call, with the hash of its key.
pub data Op : Type 0 where
  push_op : Fresh → ℕ → Ptr → Op
  pop_op remove_op : ℕ → Ptr → Op

module _ (cmp : Ptr → Ptr → ℕ) (key : Ptr) where
  -- The first datum that the comparison matches with the key, NULL if there is none; the data
  -- without it.
  abbrev pub first_match : List Ptr → Ptr
  first_match [] = null
  first_match (d ∷ ds) = if cmp key d == 0 then d else first_match ds

  abbrev pub erase_match : List Ptr → List Ptr
  erase_match [] = []
  erase_match (d ∷ ds) = if cmp key d == 0 then ds else d ∷ erase_match ds

  pub first_match-NoMatch : (xs : Cells) → NoMatch cmp key xs → first_match (contents xs) ≡ null
  first_match-NoMatch [] none = refl
  first_match-NoMatch ((p, d) ∷ xs) (miss, none) = rw miss (first_match-NoMatch xs none)

  abbrev pub erase_cells : Cells → Cells
  erase_cells [] = []
  erase_cells ((p, d) ∷ xs) = if cmp key d == 0 then xs else (p, d) ∷ erase_cells xs

  pub contents-erase_cells : (xs : Cells) → contents (erase_cells xs) ≡ erase_match (contents xs)
  contents-erase_cells [] = refl
  contents-erase_cells ((p, d) ∷ xs) = elim (Bool-cases (cmp key d == 0)) [
    | inl hit ↦ rw hit
    | inr miss ↦ rw miss (ap (λ t. d ∷ t) (contents-erase_cells xs))
  ]

  pub length-erase_cells : (xs : Cells) → length (erase_cells xs) ≤ length xs
  length-erase_cells [] = omega arith
  length-erase_cells ((p, d) ∷ xs) = elim (Bool-cases (cmp key d == 0)) [
    | inl hit ↦ rw hit (omega arith)
    | inr miss ↦ rw miss (omega (arith, length-erase_cells xs))
  ]

  pub has-erase_cells : (a : Ptr) (xs : Cells) → has a xs ≡ false → has a (erase_cells xs) ≡ false
  has-erase_cells a [] out = refl
  has-erase_cells a ((p, d) ∷ xs) out = elim (Bool-cases (cmp key d == 0)) [
    | inl hit ↦ rw hit (ground arith)
    | inr miss ↦ rw miss (ground (arith, has-erase_cells a xs))
  ]

  pub Distinct-erase_cells : (xs : Cells) → Distinct xs → Distinct (erase_cells xs)
  Distinct-erase_cells [] d = tt
  Distinct-erase_cells ((p, e) ∷ xs) d = elim (Bool-cases (cmp key e == 0)) [
    | inl hit ↦ rw hit d.1
    | inr miss ↦ rw miss (has-erase_cells p xs d.0, Distinct-erase_cells xs d.1)
  ]

  pub erase_cells-NoMatch : (xs : Cells) → NoMatch cmp key xs → erase_cells xs ≡ xs
  erase_cells-NoMatch [] none = refl
  erase_cells-NoMatch ((p, d) ∷ xs) (miss, none) =
      rw miss (ap (λ t. (p, d) ∷ t) (erase_cells-NoMatch xs none))

  pub erase_cells-append :
      (ys : Cells) (p d : Ptr) (zs : Cells)
      → NoMatch cmp key ys
      → (cmp key d == 0) ≡ true
      → erase_cells (ys ++ (p, d) ∷ zs) ≡ ys ++ zs
  erase_cells-append [] p d zs none hit = rw hit
  erase_cells-append ((q, e) ∷ ys) p d zs (miss, none) hit =
      rw miss (ap (λ t. (q, e) ∷ t) (erase_cells-append ys p d zs none hit))

  pub first_match-append :
      (ys : Cells) (p d : Ptr) (zs : Cells)
      → NoMatch cmp key ys
      → (cmp key d == 0) ≡ true
      → first_match (contents (ys ++ (p, d) ∷ zs)) ≡ d
  first_match-append [] p d zs none hit = rw hit
  first_match-append ((q, e) ∷ ys) p d zs (miss, none) hit =
      rw miss (first_match-append ys p d zs none hit)

module _ (cmp : Ptr → Ptr → ℕ) (size : ℕ) where
  unfoldable pub run : Rows → List Op → List Ptr × Rows
  run rows [] = ([], rows)
  run rows (push_op _ hash d ∷ ops) =
      let i = hash % size in
      let (rs, left) = run (replace i (pick i rows ++ d ∷ []) rows) ops in (null ∷ rs, left)
  run rows (pop_op hash key ∷ ops) =
      let (rs, left) = run rows ops in (first_match cmp key (pick (hash % size) rows) ∷ rs, left)
  run rows (remove_op hash key ∷ ops) =
      let i = hash % size in
      let (rs, left) = run (replace i (erase_match cmp key (pick i rows)) rows) ops in
      (first_match cmp key (pick i rows) ∷ rs, left)
