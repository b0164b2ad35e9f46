-- ===== src/Tests/Strings.antt =====
-- Strings of cstr.c, created, duplicated and grown.
use epoll_net.Base.{◌≡◌, some, none, [], ◌∷◌, refl, arith}
use epoll_net.Memory.{Ptr, done, write, ◌>>=◌, Store}
use epoll_net.Memory.Holds.{Holds}
use epoll_net.CStr.{CStr, Strings, block_of, create, dup_str}
use epoll_net.CStr.Copies.{copied, dup_str-create}

abbrev empty_memory : Strings
empty_memory p = none

dup_str-create_example :
    (do s ← create 100 (some (7 ∷ 8 ∷ 9 ∷ [])) 2; dup_str 200 s) empty_memory
    ≡ done 208 (
        write
          (write empty_memory 100 (some (copied (7 ∷ 8 ∷ 9 ∷ []) 2)))
          200
          (some (copied (7 ∷ 8 ∷ 9 ∷ []) 2)))
dup_str-create_example =
    dup_str-create empty_memory 100 200 (7 ∷ 8 ∷ 9 ∷ []) 2 (omega arith) (omega arith) (omega arith)
      (omega arith) (omega arith)

abbrev two_bytes : CStr
two_bytes = record { len = 2; freelen = 0; buf = 7 ∷ 8 ∷ 0 ∷ []; bytes = 11 }

abbrev one_string : Strings
one_string p = write empty_memory 100 (some two_bytes) p

two_bytes-held : Holds one_string (block_of 108) two_bytes
unfolding write
two_bytes-held = record { ne_null = omega arith; object = refl }

-- `CStr_Create` of no bytes returns NULL, and the block that it got stays allocated.
create_leaks :
    create 100 (some []) 0 empty_memory
    ≡ done 0
        (write empty_memory 100 (some (record { len = 0; freelen = 0; buf = 0 ∷ []; bytes = 9 })))
unfolding create epoll_net.Memory.place
create_leaks = refl
