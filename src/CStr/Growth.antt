-- ===== src/CStr/Growth.antt =====
-- `CStr_MackSpace`: when it moves the string, and what the new block has.
use epoll_net.Base.{
  ℕ, ◌+◌, ◌-◌, ◌%◌, ◌^◌, ◌≤◌, ◌<◌, none, some, leb, take, ◌≡◌, ◌≢◌, refl, sym, subst, arith,
  ==_false, true, false,
}
use epoll_net.Memory.{Ptr, null, done, write, place}
use epoll_net.Memory.Ensures.{Ensures, ends}
use epoll_net.Memory.Holds.{Holds, load-done, free-done}
use epoll_net.CStr.{CStr, Strings, header_bytes, block_of, make_space, free_len, len_str, new_len}

-- The string at `p` has length `len`, and what its header promises does not lie in its block.
abbrev pub Overfull : ℕ → Ptr → Strings → Type 0
Overfull len p h =
    (s : CStr) × (Holds h (block_of p) s
      × ((s.len ≡ len) × ¬ (header_bytes + s.len + s.freelen ≤ s.bytes)))

module _ (srcstr : Ptr) {h : Strings} {s : CStr} (held : Holds h (block_of srcstr) s) where
  -- Where the header promises enough free bytes, or `realloc` fails, the memory is as it was; in the
  -- first case the string stays where it is, in the second the result is NULL.
  pub make_space-unmoved :
      (addlen : ℕ)
      → ((moved : Ptr) → addlen ≤ s.freelen → make_space moved srcstr addlen h ≡ done srcstr h)
        × (s.freelen < addlen → make_space null srcstr addlen h ≡ done null h)
  unfolding make_space free_len len_str
  make_space-unmoved addlen = (
    λ moved le.
        (let stay : leb addlen s.freelen ≡ true = ground arith in rw (load-done held, stay)),
    λ less.
        (let go : leb addlen s.freelen ≡ false = ground arith in
          rw (load-done held, go, load-done held)),
  )

  -- Where the header promises too little and `realloc` gives a block at another address, the string
  -- moves to it with its length, and its old block is gone; but what the new header promises does not
  -- lie in the block: `freelen` counts the bytes of the header as free. The new size is below 2^32.
  pub make_space-Overfull :
      (moved : Ptr) (addlen : ℕ)
      → moved ≢ null
      → moved ≢ block_of srcstr
      → s.freelen < addlen
      → new_len s.len addlen < 2 ^ 32
      → Ensures
          (λ p h'. (h' (block_of srcstr) ≡ none) × Overfull s.len p h')
          (make_space moved srcstr addlen h)
  unfolding make_space free_len len_str place write
  make_space-Overfull moved addlen ne apart less small =
      let go : leb addlen s.freelen ≡ false = ground arith in
      let new = new_len s.len addlen in
      let grown : CStr = record s {
        freelen = (new - s.len) % 2 ^ 32;
        buf = take (new - header_bytes) s.buf;
        bytes = new;
      } in
      let h' = write (write h (block_of srcstr) none) moved (some grown) in
      let back : moved + header_bytes - header_bytes ≡ moved = omega arith in
      let grew : s.len ≤ new = ground arith in
      let gone : h' (block_of srcstr) ≡ none = ground arith in
      let there : Holds h' moved grown = ground arith in
      let there' = subst (λ q. Holds h' q grown) (sym back) there in
      let full : ¬ (header_bytes + s.len + grown.freelen ≤ new) = omega (arith, small, grew) in
      let run : make_space moved srcstr addlen h ≡ done (moved + header_bytes) h' = rw (
        load-done held,
        go,
        load-done held,
        ==_false moved null ne,
        load-done held,
        free-done held,
      ) in
      subst (λ r. Ensures (λ p h'. (h' (block_of srcstr) ≡ none) × Overfull s.len p h') r) (sym run)
        (ends (gone, (grown, (there', (refl, full)))))
