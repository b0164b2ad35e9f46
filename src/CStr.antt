-- ===== src/CStr.antt =====
-- cstr.c: strings behind a header of two `unsigned int`s. Callers hold the address of the bytes, 8
-- behind that of the block. Memory holds the blocks by their own addresses; `malloc` and `realloc`
-- return what the argument `str` or `moved` says. `size_t` sums are not near 2^64.
pub mod Copies
pub mod Growth
use epoll_net.Base.{
  ℕ, ◌+◌, ◌-◌, ◌*◌, ◌%◌, ◌^◌, Option, none, some, List, [], ◌∷◌, ◌++◌, ◌==◌, leb, ltb,
  if◌then◌else◌, length, take,
}
use epoll_net.Memory.{Ptr, null, Store, Prog, crash, pure, ◌>>=◌, ◌>>◌, load, place, free}

-- `struct tagCStr`, with the bytes of the block in all, and the bytes at `buf` that have a value.
pub record CStr : Type 0 where
  pub len : ℕ
  pub freelen : ℕ
  pub buf : List ℕ
  pub bytes : ℕ

-- `sizeof(struct tagCStr)`
abbrev pub header_bytes : ℕ
header_bytes = 8

abbrev pub max_prealloc : ℕ
max_prealloc = 1024 * 1024

abbrev pub Strings : Type 0
Strings = Store CStr

-- `srcstr - sizeof(CStr)`
abbrev pub block_of : Ptr → Ptr
block_of srcstr = srcstr - header_bytes

-- `memcpy` of more bytes than there are at `src` reads outside them.
fill : Ptr → List ℕ → ℕ → Prog Strings Ptr
fill str src datalen = if ltb (length src) datalen then (λ _. crash) else do
  place str (record {
    len = datalen % 2 ^ 32;
    freelen = 0;
    buf = take datalen src ++ 0 ∷ [];
    bytes = header_bytes + datalen + 1;
  })
  pure (str + header_bytes)

-- `src` is `none` for NULL, else the bytes there.
unfoldable pub create : Ptr → Option (List ℕ) → ℕ → Prog Strings Ptr
unfolding fill
create str none datalen = pure null
create str (some src) datalen =
    if str == null then pure null else if ltb 0 datalen then fill str src datalen else (do
      place str (record { len = 0; freelen = 0; buf = 0 ∷ []; bytes = header_bytes + datalen + 1 })
      pure null)

-- `CStr_Malloc` of a length that is not negative.
unfoldable pub malloc_str : Ptr → Option (List ℕ) → ℕ → Prog Strings Ptr
malloc_str = create

unfoldable pub free_str : Ptr → Prog Strings (Unit {0})
free_str srcstr = if srcstr == null then pure tt else free (block_of srcstr)

pub len_str : Ptr → Prog Strings ℕ
len_str srcstr = do str ← load (block_of srcstr); pure str.len

-- The bytes of the string are read back from its own block.
pub dup_str : Ptr → Ptr → Prog Strings Ptr
unfolding create len_str
dup_str str srcstr = do
  n ← len_str srcstr
  old ← load (block_of srcstr)
  create str (some old.buf) n

pub free_len : Ptr → Prog Strings ℕ
free_len srcstr = do str ← load (block_of srcstr); pure str.freelen

abbrev pub new_len : ℕ → ℕ → ℕ
new_len len addlen =
    if ltb (len + addlen) max_prealloc then (len + addlen) * 2 else len + addlen + max_prealloc

-- `realloc` keeps the bytes that still fit into the new block, of `newlen` bytes in all.
pub make_space : Ptr → Ptr → ℕ → Prog Strings Ptr
unfolding free_len len_str
make_space moved srcstr addlen = do
  freelen ← free_len srcstr
  if leb addlen freelen then pure srcstr else (do
    len ← len_str srcstr
    let newlen = new_len len addlen
    if moved == null then pure null else (do
      old ← load (block_of srcstr)
      free (block_of srcstr)
      place moved (record old {
        freelen = (newlen - len) % 2 ^ 32;
        buf = take (newlen - header_bytes) old.buf;
        bytes = newlen;
      })
      pure (moved + header_bytes)))
