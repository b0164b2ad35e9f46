-- ===== src/CStr/Copies.antt =====
-- `CStr_Create`, `CStr_Malloc` and `CStr_Dup`: what the copies hold.
use epoll_net.Base.{
  ℕ, zero, suc, ◌+◌, ◌-◌, ◌%◌, ◌^◌, ◌≤◌, ◌<◌, some, List, [], ◌∷◌, ◌++◌, length, take, ◌≡◌, ◌≢◌,
  refl, ap, arith, ==_false, lt→ltb, le→ltb,
}
use epoll_net.Memory.{Ptr, null, done, write, place, ◌>>=◌}
use epoll_net.Memory.Holds.{Holds, load-done}
use epoll_net.CStr.{CStr, Strings, header_bytes, create, fill, len_str, dup_str}

-- The block of a string of the first `n` bytes of `src`.
abbrev pub copied : List ℕ → ℕ → CStr
copied src n = record {
  len = n;
  freelen = 0;
  buf = take n src ++ 0 ∷ [];
  bytes = header_bytes + n + 1;
}

small_mod : (n : ℕ) → n < 2 ^ 32 → n % 2 ^ 32 ≡ n
small_mod n h = omega (arith, h)

pub take-take :
    {A : Type 0} (n : ℕ) (xs ys : List A) → n ≤ length xs → take n (take n xs ++ ys) ≡ take n xs
take-take zero xs ys h = refl
take-take (suc n) [] ys h = absurd (omega (arith, h))
take-take (suc n) (x ∷ xs) ys h = ap (λ t. x ∷ t) (take-take n xs ys (omega (arith, h)))

length-copied : (n : ℕ) (xs : List ℕ) → n ≤ length xs → n ≤ length (take n xs ++ 0 ∷ [])
length-copied zero xs h = omega arith
length-copied (suc n) [] h = omega (arith, h)
length-copied (suc n) (x ∷ xs) h = omega (arith, length-copied n xs (omega (arith, h)))

module _ (h : Strings) (str : Ptr) (src : List ℕ) (n : ℕ) (ne : str ≢ null) (pos : 0 < n)
    (small : n < 2 ^ 32) (enough : n ≤ length src) where
  pub create-done :
      create str (some src) n h ≡ done (str + header_bytes) (write h str (some (copied src n)))
  unfolding create place fill
  create-done =
      rw (==_false str null ne, lt→ltb 0 n pos, le→ltb (length src) n enough, small_mod n small)

-- A string of the first `n` bytes of `src`, and its duplicate: both calls return, the two strings are
-- equal blocks, with `n` as the length and a 0 behind the bytes, and the rest of the memory is as it
-- was. Neither `malloc` fails; `n` is positive, below 2^32 and at most the number of bytes at `src`.
pub dup_str-create :
    (h : Strings) (str new : Ptr) (src : List ℕ) (n : ℕ)
    → str ≢ null
    → new ≢ null
    → 0 < n
    → n < 2 ^ 32
    → n ≤ length src
    → (do s ← create str (some src) n; dup_str new s) h
      ≡ done
          (new + header_bytes)
          (write (write h str (some (copied src n))) new (some (copied src n)))
unfolding dup_str len_str write
dup_str-create h str new src n ne ne' pos small enough =
    let block = copied src n in
    let mid = write h str (some block) in
    let held : Holds mid str block = ground arith in
    let back : str + header_bytes - header_bytes ≡ str = omega arith in
    let same =
      ap (λ t. some (record block { buf = t ++ 0 ∷ [] })) (take-take n src (0 ∷ []) enough) in
    let again = create-done mid new block.buf n ne' pos small (length-copied n src enough) in
    rw (
      create-done h str src n ne pos small enough,
      back,
      load-done held,
      load-done held,
      again,
      same,
    )
