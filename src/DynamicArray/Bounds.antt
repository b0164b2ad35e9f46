-- ===== src/DynamicArray/Bounds.antt =====
-- Every slot that array.c hands out lies inside the array's block.
use epoll_net.Base.{
  Option, ℕ, ◌+◌, ◌-◌, ◌*◌, ◌/◌, ◌%◌, ◌^◌, ◌≤◌, ◌<◌, ◌≡◌, ◌≢◌, refl, true, false, none, some, arith,
  ltb, ◌==◌, ap, ==_false, inc32, dec32, ◌⊎◌, inl, inr, subst, sym, lt→ltb, le→ltb,
}
use native.Mathlib.Nat.{mod-eq_of_lt, mul-div_cancel_left}
use native.Mathlib.Decide.{dec_lt, ℕ_discrete}
use epoll_net.Memory.{Ptr, null, Store, done, write, place}
use epoll_net.Memory.Ensures.{Ensures, ends}
use epoll_net.Memory.Holds.{Holds, free-done}
use epoll_net.DynamicArray.{DynamicArray, mul32, grow, push, pop, value, end, index}

-- The block holds all `nmalloc` slots, no slot beyond it is in use, and its size does not wrap.
pub record IsValid (h : Store ℕ) (a : DynamicArray) : Type 0 where
  pub room : ℕ
  pub block : Holds h a.item room
  pub fits : a.size * a.nmalloc ≤ room
  pub no_wrap : a.size * a.nmalloc < 2 ^ 32
  pub used : a.nitem ≤ a.nmalloc
  pub small : a.nmalloc < 2 ^ 32
  pub sized : 0 < a.size

-- All of a slot lies inside the block at the array's address.
abbrev pub InBlock : Store ℕ → DynamicArray → Ptr → Type 0
InBlock h a slot =
    (room : ℕ) × (h a.item ≡ some room) × (a.item ≤ slot) × (slot + a.size ≤ a.item + room)

-- The offset of slot `i` among `n`.
slot_fits : (s i n : ℕ) → i < n → s * i + s ≤ s * n
slot_fits s i n h = grind arith

module _ {h' : Store ℕ} {a : DynamicArray} (v : IsValid h' a) where
  -- Offsets of slots up to the last do not wrap.
  offset : (i : ℕ) → i < a.nmalloc → mul32 a.size i ≡ a.size * i
  offset i below = mod-eq_of_lt (omega (arith, slot_fits a.size i a.nmalloc below, v.no_wrap))

  in_block : (i : ℕ) → i < a.nmalloc → InBlock h' a (a.item + a.size * i)
  in_block i below = (
    v.room,
    v.block.object,
    omega arith,
    omega (arith, slot_fits a.size i a.nmalloc below, v.fits),
  )

  value-eq : (i : ℕ) → i < a.nitem → value (some a) i ≡ a.item + a.size * i
  unfolding value
  value-eq i h = rw (lt→ltb i a.nitem h, offset i (omega (arith, v.used)))

  -- `dynamicArray_value` gives a slot inside the block for an index in use, and NULL for any other.
  pub value-InBlock :
      (i : ℕ)
      → ((i < a.nitem) × InBlock h' a (value (some a) i))
        ⊎ ((a.nitem ≤ i) × (value (some a) i ≡ null))
  unfolding value
  value-InBlock i = elim (dec_lt i a.nitem) [
    | yes h ↦
        inl (h, subst (InBlock h' a) (sym (value-eq i h)) (in_block i (omega (arith, v.used))))
    | no h ↦ inr (omega arith, rw (le→ltb i a.nitem (omega arith)))
  ]

  div_back : (i : ℕ) → a.size * i / a.size ≡ i
  div_back i = mul-div_cancel_left i v.sized

  -- `dynamicArray_index` finds the index of a slot that `dynamicArray_value` gave.
  pub index-value : (i : ℕ) → i < a.nitem → index a (value (some a) i) ≡ some i
  unfolding index
  index-value i h =
      let off : a.size * i < 2 ^ 32 =
        omega (arith, slot_fits a.size i a.nmalloc (omega (arith, v.used)), v.no_wrap) in
      let above : ltb (a.item + a.size * i) a.item ≡ false = ground arith in
      let some_size : (a.size == 0) ≡ false = ground (arith, v.sized) in
      let gap : (a.item + a.size * i - a.item) % 2 ^ 32 ≡ a.size * i = omega arith in
      rw (value-eq i h, above, some_size, gap, div_back i)

  -- `dynamicArray_end` asks for the slot past the last, and always gets NULL.
  pub end-null : end (some a) ≡ null
  unfolding end
  end-null = rw (le→ltb a.nmalloc a.nitem v.used)

-- A slot was handed out: it lies in the block, `nitem` counts it, and its address is that of index
-- `nitem`.
abbrev pub Handed : DynamicArray → Ptr → DynamicArray → Store ℕ → Type 0
Handed a slot a' g =
    IsValid g a'
    × InBlock g a' slot
    × (a'.nitem ≡ a.nitem + 1)
    × (a'.size ≡ a.size)
    × (slot ≡ a'.item + a.size * a.nitem)

-- The array was full and has twice the slots in the new block, or it was not and is where it was.
abbrev pub Grows : Ptr → DynamicArray → DynamicArray → Type 0
Grows moved a a' =
    (a.nitem ≡ a.nmalloc) × (a'.nmalloc ≡ 2 * a.nmalloc) × (a'.item ≡ moved)
    ⊎ (a.nitem ≢ a.nmalloc) × (a'.nmalloc ≡ a.nmalloc) × (a'.item ≡ a.item)

abbrev pub Pushed : Ptr → DynamicArray → Ptr × Option DynamicArray → Store ℕ → Type 0
Pushed moved a (slot, none) g = ⊥
Pushed moved a (slot, some a') g = Handed a slot a' g × Grows moved a a'

module _ {h : Store ℕ} {a : DynamicArray} (v : IsValid h a) where
  next_slot-Handed :
      a.nitem < a.nmalloc
      → Handed a (a.item + mul32 a.size a.nitem) (record a { nitem = inc32 a.nitem }) h
  next_slot-Handed below = (
    record {
      room = v.room;
      block = v.block;
      fits = v.fits;
      no_wrap = v.no_wrap;
      used = omega (arith, v.small);
      small = v.small;
      sized = v.sized;
    },
    subst (λ t. InBlock h a (a.item + t)) (sym (offset v a.nitem below)) (in_block v a.nitem below),
    omega (arith, v.small),
    refl,
    ap (λ t. a.item + t) (offset v a.nitem below),
  )

module _ {h : Store ℕ} {a : DynamicArray} (v : IsValid h a) where
  push_room : a.nitem ≢ a.nmalloc → (moved : Ptr) → Ensures (Pushed moved a) (push moved (some a) h)
  unfolding push
  push_room ne moved =
      rw (==_false a.nitem a.nmalloc ne)
        (ends (next_slot-Handed v (omega (arith, v.used)), inr (ne, refl, refl)))

  abbrev grown_to : Ptr → DynamicArray
  grown_to moved = record a { item = moved; nmalloc = mul32 a.nmalloc 2 }

  abbrev heap_grown : Ptr → Store ℕ
  heap_grown moved = write (write h a.item none) moved (some (mul32 2 (mul32 a.size a.nmalloc)))

  grow-done :
      (moved : Ptr)
      → moved ≢ null
      → grow moved a h ≡ done (some (grown_to moved)) (heap_grown moved)
  unfolding grow place
  grow-done moved ne = rw (==_false moved null ne, free-done v.block)

  grown-IsValid :
      (moved : Ptr)
      → moved ≢ null
      → 2 * (a.size * a.nmalloc) < 2 ^ 32
      → IsValid (heap_grown moved) (grown_to moved)
  unfolding write
  grown-IsValid moved ne double =
      let twice : a.size * (a.nmalloc * 2) ≡ 2 * (a.size * a.nmalloc) = omega arith in
      let most : a.nmalloc ≤ a.size * a.nmalloc = grind (arith, v.sized) in
      let count : a.nmalloc * 2 % 2 ^ 32 ≡ a.nmalloc * 2 = omega arith in
      record {
        room = mul32 2 (mul32 a.size a.nmalloc);
        block = record { ne_null = ne; object = ground arith };
        fits = rw (count, twice) (omega arith);
        no_wrap = rw (count, twice) double;
        used = rw count (omega (arith, v.used));
        small = rw count (omega arith);
        sized = v.sized;
      }

  push_full :
      (moved : Ptr)
      → a.nitem ≡ a.nmalloc
      → moved ≢ null
      → 0 < a.nmalloc
      → 2 * (a.size * a.nmalloc) < 2 ^ 32
      → Ensures (Pushed moved a) (push moved (some a) h)
  unfolding push
  push_full moved full ne some_room double =
      let at : (a.nitem == a.nmalloc) ≡ true = ground arith in
      let most : a.nmalloc ≤ a.size * a.nmalloc = grind (arith, v.sized) in
      let count : mul32 a.nmalloc 2 ≡ 2 * a.nmalloc = omega arith in
      let v' = grown-IsValid moved ne double in
      rw (at, grow-done moved ne)
        (ends (next_slot-Handed v' (omega (arith, most)), inl (full, count, refl)))

  -- `dynamicArray_push` on a valid array that is not full, or that gets a new block, has a slot and twice
  -- its size below 2^32, gives a slot that lies inside the array's block, counts it, and keeps the array
  -- valid. An array that is full has then twice the slots in the new block, any other stays as it is.
  pub push-Pushed :
      (moved : Ptr)
      → (a.nitem ≢ a.nmalloc)
        ⊎ (moved ≢ null) × (0 < a.nmalloc) × (2 * (a.size * a.nmalloc) < 2 ^ 32)
      → Ensures (Pushed moved a) (push moved (some a) h)
  push-Pushed moved (inl room) = push_room room moved
  push-Pushed moved (inr (ne, some_room, double)) = elim (ℕ_discrete a.nitem a.nmalloc) [
    | yes full ↦ push_full moved full ne some_room double
    | no room ↦ push_room room moved
  ]

  -- A push that finds the array full and gets no memory returns NULL and changes nothing.
  pub push-null : a.nitem ≡ a.nmalloc → push null (some a) h ≡ done (null, some a) h
  unfolding push grow
  push-null full = let at : (a.nitem == a.nmalloc) ≡ true = ground arith in rw at refl

  abbrev shrunk : DynamicArray
  shrunk = record a { nitem = dec32 a.nitem }

  back_one : 0 < a.nitem → dec32 a.nitem + 1 ≡ a.nitem
  back_one some_used = omega (arith, v.used, v.small)

  push-shrunk :
      0 < a.nitem
      → push null (some shrunk) h ≡ done (a.item + mul32 a.size (dec32 a.nitem), some a) h
  unfolding push
  push-shrunk some_used =
      let room : (dec32 a.nitem == a.nmalloc) ≡ false = ground (arith, v.used, v.small) in
      let again : inc32 (dec32 a.nitem) ≡ a.nitem = omega (arith, v.used, v.small) in
      rw room (
        ap (λ n. done (a.item + mul32 a.size (dec32 a.nitem), some (record a { nitem = n })) h)
          again)

  shrunk-IsValid : 0 < a.nitem → IsValid h shrunk
  shrunk-IsValid some_used = record {
    room = v.room;
    block = v.block;
    fits = v.fits;
    no_wrap = v.no_wrap;
    used = omega (arith, back_one some_used, v.used);
    small = v.small;
    sized = v.sized;
  }

  -- A pop on a valid array in use takes the last slot out of use and returns its address, which lies
  -- in the block and is the one that the next push hands out; the array stays valid. On an empty
  -- array a pop returns NULL and changes nothing.
  pub pop-InBlock :
      ((a.nitem ≡ 0) × (pop (some a) ≡ (null, some a)))
      ⊎ ((slot : Ptr) × (a' : DynamicArray) × (pop (some a) ≡ (slot, some a'))
          × (a.nitem ≡ a'.nitem + 1)
          × InBlock h a slot
          × IsValid h a'
          × (push null (some a') h ≡ done (slot, some a) h))
  unfolding pop
  pop-InBlock = elim (dec_lt 0 a.nitem) [
    | yes some_used ↦
        let last_in : dec32 a.nitem < a.nmalloc = omega (arith, back_one some_used, v.used) in
        inr (
          a.item + mul32 a.size (dec32 a.nitem),
          shrunk,
          rw (lt→ltb 0 a.nitem some_used),
          sym (back_one some_used),
          subst (λ t. InBlock h a (a.item + t)) (sym (offset v (dec32 a.nitem) last_in))
              (in_block v (dec32 a.nitem) last_in),
          shrunk-IsValid some_used,
          push-shrunk some_used,
        )
    | no none_used ↦ inl (omega arith, rw (le→ltb 0 a.nitem (omega arith)))
  ]
