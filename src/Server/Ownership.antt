-- ===== src/Server/Ownership.antt =====
-- Whose the strings in memory are while the server runs: each string of a queued item is that item's, and
-- each string that waits to be sent is its connection's.
pub mod Steps
pub mod Events
pub mod Sends
pub mod Replies
pub mod Callbacks
pub mod Runs
use epoll_net.Base.{
  ℕ, zero, suc, ◌+◌, ◌<◌, ◌≤◌, ◌≡◌, ◌≢◌, ap, refl, ◌∙◌, sym, arith, subst, Bool-cases, inl, inr,
  ◌⊎◌, Option, none, some, List, [], ◌∷◌, ◌++◌, length, ◌==◌, if◌then◌else◌, ==_refl, ==_false,
}
use epoll_net.Memory.{Ptr, null, Store, write}
use epoll_net.Memory.Holds.{Holds, Holds-write_ne, Holds-new}
use epoll_net.World.{World, ConnObj, Item, Event}
use epoll_net.CStr.{CStr, Strings, block_of}

pub data Owner : Type 0 where
  nobody : Owner
  item_no : ℕ → Owner
  conn_at : Ptr → Owner

-- A block is there, and is this owner's.
pub record Belongs (h : Strings) (own : Ptr → Owner) (b : Ptr) (o : Owner) : Type 0 where
  pub string : CStr
  pub there : Holds h b string
  pub owned : own b ≡ o

-- What `malloc` gives: NULL, or an address at which there is no string.
abbrev pub IsFree : World → Ptr → Type 0
IsFree w a = (a ≡ null) ⊎ (a ≢ null) × (w.strings a ≡ none)

abbrev pub Items : Strings → (Ptr → Owner) → ℕ → List Item → Type 0
Items h own k [] = Unit {0}
Items h own k (i ∷ is) =
    (i.recvptr ≢ null → Belongs h own (block_of i.recvptr) (item_no k)) × Items h own (suc k) is

abbrev pub Conns : Strings → (Ptr → Owner) → Store ConnObj → Type 0
Conns h own conns =
    (p : Ptr) (c : ConnObj)
    → conns p ≡ some c
    → 0 < c.sendlen
    → c.sendptr ≢ null
    → Belongs h own (block_of c.sendptr) (conn_at p)

abbrev item_number : Owner → ℕ
item_number nobody = 0
item_number (item_no k) = k
item_number (conn_at p) = 0

abbrev conn_address : Owner → Ptr
conn_address nobody = 0
conn_address (item_no k) = 0
conn_address (conn_at p) = p

abbrev OwnsItem : Owner → Type 0
OwnsItem nobody = ⊥
OwnsItem (item_no k) = Unit
OwnsItem (conn_at p) = ⊥

-- Nothing is both an item's and a connection's.
pub item_or_conn : {k : ℕ} {p : Ptr} {o : Owner} → o ≡ item_no k → o ≡ conn_at p → ⊥
item_or_conn e f = cc (e, f)

pub same_item : {k j : ℕ} {o : Owner} → o ≡ item_no k → o ≡ item_no j → k ≡ j
same_item e f = ap item_number (sym e ∙ f)

pub same_conn : {p q : Ptr} {o : Owner} → o ≡ conn_at p → o ≡ conn_at q → p ≡ q
same_conn e f = ap conn_address (sym e ∙ f)

-- Another block is given back.
pub Belongs-free :
    {h : Strings} {own : Ptr → Owner} {b : Ptr} {o : Owner} (a : Ptr)
    → a ≢ b
    → Belongs h own b o
    → Belongs (write h a none) own b o
Belongs-free a ne mine = record {
  string = mine.string;
  there = Holds-write_ne mine.there none ne;
  owned = mine.owned;
}

-- What is at an address behind a write.
pub write-cases :
    {V : Type 0} (h : Store V) (p q : Ptr) (c d : V)
    → write h p (some c) q ≡ some d
    → (p ≡ q) × (c ≡ d) ⊎ (p ≢ q) × (h q ≡ some d)
unfolding write
write-cases h p q c d there = ground arith

abbrev pub with_owner : (Ptr → Owner) → Ptr → Owner → Ptr → Owner
with_owner own a o b = if a == b then o else own b

module _ (h : Strings) (own : Ptr → Owner) (a : Ptr) (fresh : h a ≡ none) (o : Owner)
    (s : CStr) where
  -- A new block is at an address that nothing else has.
  pub Belongs-new :
      {b : Ptr} {o' : Owner}
      → Belongs h own b o'
      → Belongs (write h a (some s)) (with_owner own a o) b o'
  Belongs-new {b} {o'} mine =
      let held = mine.there in
      let apart : a ≢ b = λ e. cc (ap h e, fresh, held.object) in
      record {
        string = mine.string;
        there = Holds-write_ne held (some s) apart;
        owned = rw (==_false a b apart) mine.owned;
      }

  pub Items-new :
      (k : ℕ) (is : List Item)
      → Items h own k is
      → Items (write h a (some s)) (with_owner own a o) k is
  Items-new k [] items = tt
  Items-new k (i ∷ is) (item, items) = (λ ne. Belongs-new (item ne), Items-new (suc k) is items)

  pub Conns-new :
      {conns : Store ConnObj}
      → Conns h own conns
      → Conns (write h a (some s)) (with_owner own a o) conns
  Conns-new owned p c there some_bytes ne = Belongs-new (owned p c there some_bytes ne)

module _ (h : Strings) (own : Ptr → Owner) where
  -- An item's block is given back, of a number below those of the items that are left.
  pub Items-free :
      (b : Ptr) (j k : ℕ) (is : List Item)
      → own b ≡ item_no j
      → j < k
      → Items h own k is
      → Items (write h b none) own k is
  Items-free b j k [] its below items = tt
  Items-free b j k (i ∷ is) its below (item, items) = (
    λ ne.
        Belongs-free b (λ e. absurd (omega (arith, same_item its (ap own e ∙ (item ne).owned))))
          (item ne),
    Items-free b j (suc k) is its (omega (arith, below)) items,
  )

  pub Conns-free :
      {conns : Store ConnObj} (b : Ptr) (j : ℕ)
      → own b ≡ item_no j
      → Conns h own conns
      → Conns (write h b none) own conns
  Conns-free b j its owned p c there some_bytes ne =
      let mine = owned p c there some_bytes ne in
      Belongs-free b (λ e. item_or_conn its (ap own e ∙ mine.owned)) mine

  -- A connection's block is given back.
  pub Items-sent :
      (b p : Ptr) (k : ℕ) (is : List Item)
      → own b ≡ conn_at p
      → Items h own k is
      → Items (write h b none) own k is
  Items-sent b p k [] its items = tt
  Items-sent b p k (i ∷ is) its (item, items) = (
    λ ne. Belongs-free b (λ e. item_or_conn (ap own e ∙ (item ne).owned) its) (item ne),
    Items-sent b p (suc k) is its items,
  )

  -- An object is written, with a string to send that is its own.
  pub Conns-write :
      {conns : Store ConnObj} (p : Ptr) (c : ConnObj)
      → (0 < c.sendlen → c.sendptr ≢ null → Belongs h own (block_of c.sendptr) (conn_at p))
      → Conns h own conns
      → Conns h own (write conns p (some c))
  Conns-write {conns} p c mine owned q d there some_bytes ne =
      elim (write-cases conns p q c d there) [
        | inl (e, same) ↦
            subst
              (λ x.
                0 < x.sendlen → x.sendptr ≢ null → Belongs h own (block_of x.sendptr) (conn_at q))
              same
              (subst
                (λ r.
                  0 < c.sendlen → c.sendptr ≢ null → Belongs h own (block_of c.sendptr) (conn_at r))
                e mine)
              some_bytes ne
        | inr (other, old) ↦ owned q d old some_bytes ne
      ]

  -- An object whose string is given back has nothing to send.
  pub Conns-sent :
      {conns : Store ConnObj} (b p : Ptr) (c : ConnObj)
      → own b ≡ conn_at p
      → c.sendlen ≡ 0
      → Conns h own conns
      → Conns (write h b none) own (write conns p (some c))
  Conns-sent {conns} b p c its empty owned q d there some_bytes ne =
      elim (write-cases conns p q c d there) [
        | inl (e, same) ↦ absurd (omega (arith, some_bytes, empty, ap (λ x. x.sendlen) same))
        | inr (other, old) ↦
            let mine = owned q d old some_bytes ne in
            Belongs-free b (λ e. other (same_conn its (ap own e ∙ mine.owned))) mine
      ]

-- A new item at the end.
pub Items-append :
    (h : Strings) (own : Ptr → Owner) (k : ℕ) (is : List Item) (i : Item)
    → Items h own k is
    → (i.recvptr ≢ null → Belongs h own (block_of i.recvptr) (item_no (k + length is)))
    → Items h own k (is ++ i ∷ [])
Items-append h own k [] i items item =
    (λ ne. subst (λ n. Belongs h own (block_of i.recvptr) (item_no n)) (omega arith) (item ne), tt)
Items-append h own k (j ∷ is) i (first, items) item = (
  first,
  Items-append h own (suc k) is i items
      λ ne. subst (λ n. Belongs h own (block_of i.recvptr) (item_no n)) (omega arith) (item ne),
)
