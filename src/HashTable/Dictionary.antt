-- ===== src/HashTable/Dictionary.antt =====
-- One list of data in place of the rows: what a table is for, as long as hash and comparison agree.
use epoll_net.Base.{
  ℕ, zero, suc, ◌+◌, ◌%◌, ◌<◌, ◌≡◌, ◌≢◌, refl, sym, ap, false, true, none, some, List, [], ◌∷◌,
  ◌++◌, arith, ◌==◌, length, if◌then◌else◌, map, ◌∙◌, replicate, Bool-cases, inl, inr, ==_iff,
  ==_refl, ==_false,
}
use epoll_net.Memory.{Ptr, null}
use epoll_net.Memory.Ensures
use epoll_net.Memory.Ensures.{Ensures, ends}
use epoll_net.DataList.{Nodes}
use epoll_net.DataList.Chain.{contents}
use epoll_net.HashTable.{HashTable, init}
use epoll_net.HashTable.Buckets.{flat, pick, replace, length-replace, AreBuckets, IsTable}
use epoll_net.HashTable.Rows
use epoll_net.HashTable.Rows.{Rows, Op, push_op, pop_op, remove_op, first_match, erase_match}
use epoll_net.HashTable.Refine.{run_calls, IsAllocated, run_calls_refines}

module _ (cmp : Ptr → Ptr → ℕ) where
  -- The dictionary: all data, oldest first.
  unfoldable pub look_ups : List Ptr → List Op → List Ptr
  look_ups ds [] = []
  look_ups ds (push_op _ _ d ∷ ops) = null ∷ look_ups (ds ++ d ∷ []) ops
  look_ups ds (pop_op _ key ∷ ops) = first_match cmp key ds ∷ look_ups ds ops
  look_ups ds (remove_op _ key ∷ ops) =
      first_match cmp key ds ∷ look_ups (erase_match cmp key ds) ops

  -- Hash and comparison agree: a datum is filed under its own hash, and a key matches data of its
  -- hash only.
  abbrev pub Agrees : (Ptr → ℕ) → Op → Type 0
  Agrees home (push_op _ hash d) = hash ≡ home d
  Agrees home (pop_op hash key) = (d : Ptr) → (cmp key d == 0) ≡ true → hash ≡ home d
  Agrees home (remove_op hash key) = (d : Ptr) → (cmp key d == 0) ≡ true → hash ≡ home d

  abbrev pub AllAgree : (Ptr → ℕ) → List Op → Type 0
  AllAgree home [] = Unit {0}
  AllAgree home (op ∷ ops) = Agrees home op × AllAgree home ops

module _ (home : Ptr → ℕ) (size : ℕ) where
  -- The data of one row.
  row : ℕ → List Ptr → List Ptr
  row i [] = []
  row i (d ∷ ds) = if home d % size == i then d ∷ row i ds else row i ds

  row-append :
      (i : ℕ) (ds : List Ptr) (d : Ptr)
      → row i (ds ++ d ∷ []) ≡ (if home d % size == i then row i ds ++ d ∷ [] else row i ds)
  unfolding row
  row-append i [] d = refl
  row-append i (e ∷ ds) d = ground (arith, row-append i ds d)

  module _ (cmp : Ptr → Ptr → ℕ) (hash : ℕ) (key : Ptr)
      (agrees : (d : Ptr) → (cmp key d == 0) ≡ true → hash ≡ home d) where
    own_row : (d : Ptr) → (cmp key d == 0) ≡ true → (home d % size == hash % size) ≡ true
    own_row d hit = rw (agrees d hit) (==_refl (home d % size))

    first_match-row :
        (ds : List Ptr) → first_match cmp key (row (hash % size) ds) ≡ first_match cmp key ds
    unfolding row
    first_match-row [] = refl
    first_match-row (d ∷ ds) = elim (Bool-cases (cmp key d == 0)) [
      | inl hit ↦ rw (own_row d hit, hit) refl
      | inr miss ↦ elim (Bool-cases (home d % size == hash % size)) [
        | inl here ↦ rw (here, miss) (first_match-row ds)
        | inr elsewhere ↦ rw (elsewhere, miss) (first_match-row ds)
      ]
    ]

    row-erase_match_self :
        (ds : List Ptr)
        → row (hash % size) (erase_match cmp key ds) ≡ erase_match cmp key (row (hash % size) ds)
    unfolding row
    row-erase_match_self [] = refl
    row-erase_match_self (d ∷ ds) = elim (Bool-cases (cmp key d == 0)) [
      | inl hit ↦ rw (own_row d hit, hit) refl
      | inr miss ↦ elim (Bool-cases (home d % size == hash % size)) [
        | inl here ↦ rw (here, miss, here) (ap (λ t. d ∷ t) (row-erase_match_self ds))
        | inr elsewhere ↦ rw (elsewhere, miss, elsewhere) (row-erase_match_self ds)
      ]
    ]

    row-erase_match_other :
        (i : ℕ) (ds : List Ptr)
        → (hash % size == i) ≡ false
        → row i (erase_match cmp key ds) ≡ row i ds
    unfolding row
    row-erase_match_other i [] other = refl
    row-erase_match_other i (d ∷ ds) other = elim (Bool-cases (cmp key d == 0)) [
      | inl hit ↦ rw (hit, sym (agrees d hit), other) refl
      | inr miss ↦ elim (Bool-cases (home d % size == i)) [
        | inl here ↦ rw (here, miss, here) (ap (λ t. d ∷ t) (row-erase_match_other i ds other))
        | inr elsewhere ↦ rw (elsewhere, miss, elsewhere) (row-erase_match_other i ds other)
      ]
    ]

  -- The rows hold the data of one dictionary, each in its row.
  abbrev InRows : Rows → List Ptr → Type 0
  InRows rows ds = (length rows ≡ size) × ((i : ℕ) → i < size → pick i rows ≡ row i ds)

  pick-replace :
      (i j : ℕ) (ys : List Ptr) (rows : Rows)
      → i < length rows
      → pick j (replace i ys rows) ≡ (if i == j then ys else pick j rows)
  pick-replace i j ys [] below = absurd (omega arith)
  pick-replace zero zero ys (r ∷ rows) below = refl
  pick-replace zero (suc j) ys (r ∷ rows) below = ground arith
  pick-replace (suc i) zero ys (r ∷ rows) below = ground arith
  pick-replace (suc i) (suc j) ys (r ∷ rows) below = ground (arith, pick-replace i j ys rows)

  -- Replacing the row of a hash.
  InRows-replace :
      (i : ℕ) (ys : List Ptr) (rows : Rows) (ds ds' : List Ptr)
      → i < size
      → InRows rows ds
      → row i ds' ≡ ys
      → ((j : ℕ) → (i == j) ≡ false → row j ds' ≡ row j ds)
      → InRows (replace i ys rows) ds'
  InRows-replace i ys rows ds ds' below (long, agree) mine rest = (
    omega (arith, length-replace i ys rows),
    λ j lt. elim (Bool-cases (i == j)) [
      | inl same ↦
          rw (pick-replace i j ys rows (omega arith), same, ← mine, (==_iff i j).0 same) refl
      | inr apart ↦
          rw (pick-replace i j ys rows (omega arith), apart, agree j lt, rest j apart) refl
    ],
  )

  module _ (cmp : Ptr → Ptr → ℕ) (some_rows : 0 < size) where
    run-look_ups :
        (ops : List Op) (rows : Rows) (ds : List Ptr)
        → InRows rows ds
        → AllAgree cmp home ops
        → (Rows.run cmp size rows ops).0 ≡ look_ups cmp ds ops
    unfolding Rows.run look_ups
    run-look_ups [] rows ds is ok = refl
    run-look_ups (push_op fresh hash d ∷ ops) rows ds is (filed, ok) =
        let i = hash % size in
        let below : i < size = grind arith in
        let here : (home d % size == i) ≡ true = rw (← filed) (==_refl i) in
        let is' =
          InRows-replace i (pick i rows ++ d ∷ []) rows ds (ds ++ d ∷ []) below is
            (rw (row-append i ds d, here, is.1 i below) refl)
            (λ j apart. rw (row-append j ds d, ← filed, apart) refl) in
        ap (λ q. null ∷ q) (run-look_ups ops _ _ is' ok)
    run-look_ups (pop_op hash key ∷ ops) rows ds is (agrees, ok) =
        let i = hash % size in
        let below : i < size = grind arith in
        rw (is.1 i below, first_match-row cmp hash key agrees ds)
          (ap (λ q. first_match cmp key ds ∷ q) (run-look_ups ops rows ds is ok))
    run-look_ups (remove_op hash key ∷ ops) rows ds is (agrees, ok) =
        let i = hash % size in
        let below : i < size = grind arith in
        let is' =
          InRows-replace i (erase_match cmp key (row i ds)) rows ds (erase_match cmp key ds) below
            is (row-erase_match_self cmp hash key agrees ds)
            (λ j apart. row-erase_match_other cmp hash key agrees j ds apart) in
        rw (is.1 i below, first_match-row cmp hash key agrees ds)
          (ap (λ q. first_match cmp key ds ∷ q) (run-look_ups ops _ _ is' ok))

-- A table that was just made.
module _ (h : Nodes) where
  AreBuckets-replicate : (n : ℕ) → AreBuckets h (replicate n none) (replicate n [])
  AreBuckets-replicate zero = tt
  AreBuckets-replicate (suc n) = (refl, AreBuckets-replicate n)

flat-replicate : (n : ℕ) → flat (replicate n []) ≡ []
flat-replicate zero = refl
flat-replicate (suc n) = flat-replicate n

length-replicate : {A : Type 0} (n : ℕ) (a : A) → length (replicate n a) ≡ n
length-replicate zero a = refl
length-replicate (suc n) a = omega (arith, length-replicate n a)

map-replicate : (n : ℕ) → map contents (replicate n []) ≡ replicate n []
map-replicate zero = refl
map-replicate (suc n) = ap (λ t. [] ∷ t) (map-replicate n)

pick-replicate : (n i : ℕ) → pick {A = Ptr} i (replicate n []) ≡ []
pick-replicate zero i = refl
pick-replicate (suc n) zero = refl
pick-replicate (suc n) (suc i) = pick-replicate n i

pub made : ℕ → HashTable
made size = record { hashsize = size; buckets = replicate size none }

pub made-IsTable :
    (h : Nodes) (size : ℕ) → 0 < size → IsTable h (made size) size (replicate size [])
unfolding made
made-IsTable h size pos = record {
  buckets_are = AreBuckets-replicate h size;
  distinct = rw (flat-replicate size) tt;
  sized = length-replicate size none;
  hashsize_is = refl;
  some_buckets = pos;
}

-- Any sequence of calls on a new table returns what a dictionary returns that keeps all data in one
-- list and searches it from the oldest on, as long as a datum is filed under its own hash and a key
-- matches data of its hash only. A second datum for a key is found only when the first is taken out.
pub run_calls-look_ups :
    (cmp : Ptr → Ptr → ℕ) (home : Ptr → ℕ) (fuel size : ℕ) (table buckets : Ptr) (ops : List Op)
    → table ≢ null
    → buckets ≢ null
    → 0 < size
    → length ops < fuel
    → IsAllocated cmp size (replicate size []) ops
    → AllAgree cmp home ops
    → (t : HashTable) × (init table buckets size ≡ some t)
      × ((h : Nodes)
          → Ensures (λ (replies, t') g. replies ≡ look_ups cmp [] ops) (run_calls cmp fuel t ops h))
unfolding init made row
run_calls-look_ups cmp home fuel size table buckets ops ne ne' pos enough alloc ok = (
  made size,
  rw (==_false table null ne, ==_false buckets null ne') refl,
  λ h.
      let fits : length (flat (replicate size [])) + length ops < fuel =
        rw (flat-replicate size) (omega arith) in
      let empty : InRows home size (map contents (replicate size [])) [] =
        rw (map-replicate size) (length-replicate size [], λ i lt. pick-replicate size i) in
      Ensures.weaken
        (run_calls_refines cmp fuel size ops (replicate size []) (made-IsTable h size pos) fits
          alloc)
        λ (rs, t') g (left, is, e).
          ap (λ q. q.0) e ∙ run-look_ups home size cmp pos ops _ [] empty ok,
)
