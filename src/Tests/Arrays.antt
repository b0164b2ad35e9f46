-- ===== src/Tests/Arrays.antt =====
-- array.c at an array of two slots of 8 bytes, both in use, in a block at the address 100.
use epoll_net.Base.{ℕ, ◌^◌, ◌≡◌, ◌≢◌, inr, refl, none, some, arith}
use epoll_net.Memory.{Store, write}
use epoll_net.Memory.Ensures.{Ensures}
use epoll_net.Memory.Holds.{Holds}
use epoll_net.DynamicArray.{DynamicArray, header_bytes, push}
use epoll_net.DynamicArray.Bounds.{IsValid, Pushed, push-Pushed}
use epoll_net.DynamicArray.Leak.{round_trip, destroy-create_array}

abbrev block_of : ℕ → Store ℕ
block_of bytes = write (λ _. none) 100 (some bytes)

abbrev full : DynamicArray
full = record { nitem = 2; item = 100; size = 8; nmalloc = 2 }

abbrev hollow : DynamicArray
hollow = record { nitem = 0; item = 100; size = 8; nmalloc = 0 }

abbrev huge : DynamicArray
huge = record { nitem = 2 ^ 29; item = 100; size = 4; nmalloc = 2 ^ 29 }

holds_block : (bytes : ℕ) → Holds (block_of bytes) 100 bytes
unfolding write
holds_block bytes = record { ne_null = omega arith; object = refl }

full-IsValid : IsValid (block_of 16) full
full-IsValid = record {
  room = 16;
  block = holds_block 16;
  fits = omega arith;
  no_wrap = omega arith;
  used = omega arith;
  small = omega arith;
  sized = omega arith;
}

push-Pushed_example : Ensures (Pushed 200 full) (push 200 (some full) (block_of 16))
push-Pushed_example = push-Pushed full-IsValid 200 (inr (omega arith, omega arith, omega arith))

abbrev empty : Store ℕ
empty _ = none

destroy-create_array_example :
    Ensures (λ _ g. (p : ℕ) → g p ≡ empty p) (round_trip 100 200 10 8 300 empty)
    × Ensures
        (λ _ g. (g 200 ≡ some header_bytes) × ((p : ℕ) → p ≢ 200 → g p ≡ empty p))
        (round_trip 100 200 10 8 0 empty)
destroy-create_array_example =
    destroy-create_array empty 100 200 300 10 8 (omega arith) (omega arith) (omega arith)
      (omega arith) (omega arith) (omega arith) refl refl refl
