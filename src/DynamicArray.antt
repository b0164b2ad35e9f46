-- ===== src/DynamicArray.antt =====
-- array.c: a growing array of equal slots in one allocated block. Memory is the size in bytes of the
-- block at each address; the slots' contents belong to the callers. `unsigned int` arithmetic wraps
-- at 2^32, as `dynamicArray->size * dynamicArray->nmalloc` does before it reaches `realloc`.
pub mod Bounds
pub mod Overflow
pub mod Interface
pub mod Leak
use epoll_net.Base.{
  ℕ, ◌+◌, ◌-◌, ◌*◌, ◌/◌, ◌%◌, ◌^◌, Option, none, some, inc32, dec32, ltb, ◌==◌, if◌then◌else◌,
}
use epoll_net.Memory.{Ptr, null, Store, Prog, pure, ◌>>=◌, ◌>>◌, place, free}

-- `struct tagArray`
pub record DynamicArray : Type 0 where
  pub nitem : ℕ
  pub item : Ptr
  pub size : ℕ
  pub nmalloc : ℕ

abbrev pub mul32 : ℕ → ℕ → ℕ
mul32 a b = a * b % 2 ^ 32

-- `sizeof(DynamicArray)` on x86-64
abbrev pub header_bytes : ℕ
header_bytes = 24

-- `array` and `item` are what the two calls of `malloc` return.
pub init : (array item : Ptr) → (ncount itemsize : ℕ) → Prog (Store ℕ) (Option DynamicArray)
init array item ncount itemsize = if array == null then pure none else do
  place array header_bytes
  if item == null then pure none else do
    place item (mul32 ncount itemsize)
    pure (some (record { nitem = 0; item = item; size = itemsize; nmalloc = ncount }))

-- `array` is the address of the structure itself.
pub clear : Ptr → Option DynamicArray → Prog (Store ℕ) (Unit {0})
clear array none = pure tt
clear array (some a) = if a.item == null then free array else free a.item >> free array

-- `realloc` gives the block at `moved`, NULL when it fails and the old block stays.
grow : Ptr → DynamicArray → Prog (Store ℕ) (Option DynamicArray)
grow moved a = if moved == null then pure none else do
  free a.item
  place moved (mul32 2 (mul32 a.size a.nmalloc))
  pure (some (record a { item = moved; nmalloc = mul32 a.nmalloc 2 }))

-- The address of the slot at `nitem`, which is then in use.
abbrev next_slot : DynamicArray → Ptr × Option DynamicArray
next_slot a = (a.item + mul32 a.size a.nitem, some (record a { nitem = inc32 a.nitem }))

-- `none` is a NULL array, for which each function returns NULL.
pub push : Ptr → Option DynamicArray → Prog (Store ℕ) (Ptr × Option DynamicArray)
unfolding grow
push moved none = pure (null, none)
push moved (some a) =
    if a.nitem == a.nmalloc
    then (do
      grown ← grow moved a
      elim grown [ none ↦ pure (null, some a) | some a' ↦ pure (next_slot a') ])
    else pure (next_slot a)

pub pop : Option DynamicArray → Ptr × Option DynamicArray
pop none = (null, none)
pop (some a) =
    if ltb 0 a.nitem
    then (a.item + mul32 a.size (dec32 a.nitem), some (record a { nitem = dec32 a.nitem }))
    else (null, some a)

pub value : Option DynamicArray → ℕ → Ptr
value none index = null
value (some a) index = if ltb index a.nitem then a.item + mul32 a.size index else null

pub head : Option DynamicArray → Ptr
unfolding value
head none = null
head (some a) = value (some a) 0

pub end : Option DynamicArray → Ptr
unfolding value
end none = null
end (some a) = value (some a) a.nmalloc

-- `none` is the trap of a division by zero; -1 as `unsigned int` is 2^32 - 1.
pub index : DynamicArray → Ptr → Option ℕ
index a slot =
    if ltb slot a.item
    then some (2 ^ 32 - 1)
    else if a.size == 0
    then none
    else some ((slot - a.item) % 2 ^ 32 / a.size)
