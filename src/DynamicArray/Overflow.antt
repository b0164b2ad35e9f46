-- ===== src/DynamicArray/Overflow.antt =====
-- Where array.c leaves its block: a capacity of 0, and a size that wraps at 2^32.
use epoll_net.Base.{
  Option, refl, inc32, ℕ, ◌+◌, ◌*◌, ◌^◌, ◌≤◌, ◌<◌, ◌≡◌, ◌≢◌, true, some, none, arith, ◌==◌,
  ==_false, ap,
}
use epoll_net.Memory.{Ptr, null, Store, done, write, place}
use epoll_net.Memory.Ensures.{Ensures, ends}
use epoll_net.Memory.Holds.{Holds, free-done}
use epoll_net.DynamicArray.{DynamicArray, mul32, grow, push}

-- The slot begins at or behind the end of the array's block.
abbrev pub PastBlock : Ptr × Option DynamicArray → Store ℕ → Type 0
PastBlock (slot, none) g = ⊥
PastBlock (slot, some a) g = (room : ℕ) × (g a.item ≡ some room) × (a.item + room ≤ slot)

module _ {h : Store ℕ} (a : DynamicArray) (moved room : Ptr) (ne : moved ≢ null)
    (block : Holds h a.item room) where
  grow-done :
      grow moved a h
      ≡ done
          (some (record a { item = moved; nmalloc = mul32 a.nmalloc 2 }))
          (write (write h a.item none) moved (some (mul32 2 (mul32 a.size a.nmalloc))))
  unfolding grow place
  grow-done = rw (==_false moved null ne, free-done block)

  -- A push on an array that was created for 0 items hands out a slot of a block of 0 bytes, and
  -- leaves the capacity at 0.
  pub push_no_capacity :
      a.nmalloc ≡ 0
      → a.nitem ≡ 0
      → Ensures
          (λ r g.
            PastBlock r g
            × ((a' : DynamicArray) × (r.1 ≡ some a') × (a'.nmalloc ≡ 0) × (a'.nitem ≡ 1)))
          (push moved (some a) h)
  unfolding push write
  push_no_capacity zero_cap zero_used =
      let full : (a.nitem == a.nmalloc) ≡ true = ground arith in
      rw (full, grow-done)
        (ends (
          (0, ground arith, omega arith),
          (
            record a { item = moved; nmalloc = mul32 a.nmalloc 2; nitem = inc32 a.nitem },
            refl,
            omega arith,
            omega arith,
          ),
        ))

  -- A push on a full array of at least 2^31 bytes asks for twice as much modulo 2^32, and hands out a
  -- slot behind the smaller block that it gets.
  pub push_wraps :
      a.nitem ≡ a.nmalloc
      → 2 ^ 31 ≤ a.size * a.nmalloc
      → a.size * a.nmalloc < 2 ^ 32
      → Ensures PastBlock (push moved (some a) h)
  unfolding push write
  push_wraps all_used large no_wrap =
      let full : (a.nitem == a.nmalloc) ≡ true = ground arith in
      let same : a.size * a.nitem ≡ a.size * a.nmalloc = ap (λ n. a.size * n) all_used in
      rw (full, grow-done) (ends (mul32 2 (mul32 a.size a.nmalloc), ground arith, omega arith))
