-- ===== src/Frame.antt =====
-- `Decode` of test_server.c: a frame begins and ends with the byte 0x7e, and inside it 0x7d 0x02
-- stands for 0x7e and 0x7d 0x01 for 0x7d. A byte is a number below 256; the source's `char`s are
-- compared with constants below 0x80 only, so their sign plays no role.
pub mod Roundtrip
pub mod Unescape
use epoll_net.Base.{
  ℕ, zero, suc, ◌+◌, ◌-◌, Bool, ◌&&◌, ◌||◌, Option, none, some, List, [], ◌∷◌, ◌++◌, get_elem?,
  length, ltb, ◌==◌, if◌then◌else◌,
}

pub data Decoded : Type 0 where
  -- A read outside the `len` bytes of `data`.
  out_of_bounds : Decoded
  out_of_fuel : Decoded
  -- -1: no frame.
  refused : Decoded
  -- The bytes written to `_data`, whose number is returned.
  decoded : List ℕ → Decoded

abbrev pub flag : ℕ
flag = 0x7e

abbrev pub escape : ℕ
escape = 0x7d

-- `data[i]`
unfoldable pub at : List ℕ → ℕ → (ℕ → Decoded) → Decoded
at bytes i k = elim (get_elem? bytes i) [ none ↦ out_of_bounds | some b ↦ k b ]

-- The byte that one round writes, and by how much it moves `i` in all. The next byte is read only
-- behind an escape byte, as `&&` does.
escaped : (ℕ → ℕ → Decoded) → ℕ → Decoded
escaped k c = if c == 0x02 then k flag 2 else if c == 0x01 then k escape 2 else k escape 1

round : List ℕ → ℕ → (ℕ → ℕ → Decoded) → Decoded
unfolding at escaped
round bytes i k = at bytes i λ b. if b == escape then at bytes (i + 1) (escaped k) else k b 1

-- `for (; i < len - 1; i++)`, with the bytes written so far, and the last byte behind it.
unfoldable pub loop : List ℕ → ℕ → ℕ → List ℕ → Decoded
unfolding round
loop bytes zero i out = out_of_fuel
loop bytes (suc fuel) i out =
    let more = round bytes i (λ b n. loop bytes fuel (i + n) (out ++ b ∷ [])) in
    let stop = at bytes (length bytes - 1) (λ z. decoded (out ++ z ∷ [])) in
    if ltb (i + 1) (length bytes) then more else stop

-- `len` is the number of bytes at `data`; as many rounds are enough.
unfoldable pub decode : List ℕ → Decoded
decode bytes = at bytes 0 λ a.
    at bytes (length bytes - 1)
      λ z. if a == flag && z == flag then loop bytes (length bytes) 1 (a ∷ []) else refused
