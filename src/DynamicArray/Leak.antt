-- ===== src/DynamicArray/Leak.antt =====
-- What is left in memory when an array is created and destroyed.
use epoll_net.Base.{ℕ, none, some, ◌≡◌, ◌≢◌, ==_false, arith}
use epoll_net.Memory.{Ptr, null, Store, Prog, done, ◌>>=◌, place, write}
use epoll_net.Memory.Ensures.{Ensures, ends}
use epoll_net.Memory.Holds.{Holds, Holds-new, Holds-write_ne, free-done}
use epoll_net.DynamicArray.{header_bytes, mul32, init, clear}
use epoll_net.DynamicArray.Interface.{interface_bytes, create, destroy}

module _ (interface array : Ptr) (ncount itemsize : ℕ) where
  abbrev pub round_trip : Ptr → Prog (Store ℕ) (Unit {0})
  round_trip item = do i ← create interface array item ncount itemsize; destroy interface array i

module _ (h : Store ℕ) (interface array : Ptr) (ncount itemsize : ℕ)
    (some_interface : interface ≢ null) (some_array : array ≢ null)
    (apart : array ≢ interface) where
  -- Where the items get no memory, the array's block stays.
  round_trip-no_items :
      round_trip interface array ncount itemsize null h
      ≡ done tt (
          write
            (write (write h interface (some interface_bytes)) array (some header_bytes))
            interface
            none)
  unfolding create destroy init clear place
  round_trip-no_items = rw (
    ==_false interface null some_interface,
    ==_false array null some_array,
    free-done (
        Holds-write_ne (Holds-new h interface interface_bytes some_interface) (some header_bytes)
          apart),
  )

  module _ (item : Ptr) (some_item : item ≢ null) (not_interface : item ≢ interface)
      (not_array : item ≢ array) where
    abbrev placed : Store ℕ
    placed = write (write h interface (some interface_bytes)) array (some header_bytes)

    abbrev all_placed : Store ℕ
    all_placed = write placed item (some (mul32 ncount itemsize))

    item_held : Holds all_placed item (mul32 ncount itemsize)
    item_held = Holds-new placed item (mul32 ncount itemsize) some_item

    array_held : Holds (write all_placed item none) array header_bytes
    array_held =
        Holds-write_ne
          (Holds-write_ne
            (Holds-new (write h interface (some interface_bytes)) array header_bytes some_array)
            (some (mul32 ncount itemsize)) not_array)
          none not_array

    interface_held : Holds (write (write all_placed item none) array none) interface interface_bytes
    interface_held =
        Holds-write_ne
          (Holds-write_ne
            (Holds-write_ne
              (Holds-write_ne (Holds-new h interface interface_bytes some_interface)
                (some header_bytes) apart)
              (some (mul32 ncount itemsize)) not_interface)
            none not_interface)
          none apart

    round_trip-all :
        round_trip interface array ncount itemsize item h
        ≡ done tt (write (write (write all_placed item none) array none) interface none)
    unfolding create destroy init clear place
    round_trip-all = rw (
      ==_false interface null some_interface,
      ==_false array null some_array,
      ==_false item null some_item,
      ==_false item null some_item,
      free-done item_held,
      free-done array_held,
      free-done interface_held,
    )

-- An array that is created with all its memory and destroyed leaves nothing: every address holds what it
-- held before. Where only its items got no memory, its header stays, and all else is as before. The new
-- blocks are apart, and free before.
pub destroy-create_array :
    (h : Store ℕ) (interface array item : Ptr) (ncount itemsize : ℕ)
    → interface ≢ null
    → array ≢ null
    → array ≢ interface
    → item ≢ null
    → item ≢ interface
    → item ≢ array
    → h interface ≡ none
    → h array ≡ none
    → h item ≡ none
    → Ensures (λ _ g. (p : Ptr) → g p ≡ h p) (round_trip interface array ncount itemsize item h)
      × Ensures
          (λ _ g. (g array ≡ some header_bytes) × ((p : Ptr) → p ≢ array → g p ≡ h p))
          (round_trip interface array ncount itemsize null h)
unfolding write
destroy-create_array h interface array item ncount itemsize some_interface some_array apart
      some_item not_interface not_array free_interface free_array free_item =
    (
      rw
          (round_trip-all h interface array ncount itemsize some_interface some_array apart item
            some_item not_interface not_array)
          (ends (λ p. ground arith)),
      rw (round_trip-no_items h interface array ncount itemsize some_interface some_array apart)
          (ends (ground arith, λ p other. ground arith)),
    )
