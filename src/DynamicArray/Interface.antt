-- ===== src/DynamicArray/Interface.antt =====
-- `DynamicArrayInterface` of array.c: an array with the table of its functions.
use epoll_net.Base.{ℕ, Option, none, some, ◌==◌, if◌then◌else◌}
use epoll_net.Memory.{Ptr, null, Store, Prog, pure, ◌>>=◌, ◌>>◌, place, free}
use epoll_net.DynamicArray
use epoll_net.DynamicArray.{DynamicArray}

pub record DynamicArrayInterface : Type 0 where
  pub array : Option DynamicArray
  pub push : Ptr → Option DynamicArray → Prog (Store ℕ) (Ptr × Option DynamicArray)
  pub pop : Option DynamicArray → Ptr × Option DynamicArray
  pub value : Option DynamicArray → ℕ → Ptr
  pub head : Option DynamicArray → Ptr
  pub end : Option DynamicArray → Ptr
  pub index : DynamicArray → Ptr → Option ℕ
  pub clear : Ptr → Option DynamicArray → Prog (Store ℕ) (Unit {0})

-- `sizeof(DynamicArrayInterface)` on x86-64
abbrev pub interface_bytes : ℕ
interface_bytes = 64

abbrev tabled : Option DynamicArray → DynamicArrayInterface
tabled a = record {
  array = a;
  push = DynamicArray.push;
  pop = DynamicArray.pop;
  value = DynamicArray.value;
  head = DynamicArray.head;
  end = DynamicArray.end;
  index = DynamicArray.index;
  clear = DynamicArray.clear;
}

-- The addresses are what the calls of `malloc` return for the table, the array and its items.
unfoldable pub create :
    (interface array item : Ptr)
    → (ncount itemsize : ℕ) → Prog (Store ℕ) (Option DynamicArrayInterface)
create interface array item ncount itemsize = if interface == null then pure none else do
  place interface interface_bytes
  a ← DynamicArray.init array item ncount itemsize
  pure (some (tabled a))

-- `DynamicArrayInterface_Destory`, with the addresses of the table and of the array.
unfoldable pub destroy :
    (interface array : Ptr) → Option DynamicArrayInterface → Prog (Store ℕ) (Unit {0})
destroy interface array none = pure tt
destroy interface array (some i) = do i.clear array i.array; free interface
