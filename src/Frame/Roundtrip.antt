-- ===== src/Frame/Roundtrip.antt =====
-- What a caller of `Decode` may rely on.
use epoll_net.Base.{
  ℕ, ◌-◌, ◌≤◌, ◌≡◌, refl, ◌∙◌, false, ◌&&◌, inl, inr, List, [], ◌∷◌, ◌++◌, arith, length,
  length-append, ◌==◌, if◌then◌else◌, Bool-cases,
}
use epoll_net.Frame.{
  Decoded, decoded, refused, out_of_bounds, out_of_fuel, flag, escape, at, loop, decode,
}
use epoll_net.Frame.Unescape.{
  unescape, unescape-nil, unescape_one, unescape-two, unescape-one, unescape-plain, at-append,
  loop_lem,
}

framed_run :
    (body : List ℕ)
    → loop (flag ∷ (body ++ flag ∷ [])) (length (flag ∷ (body ++ flag ∷ []))) 1 (flag ∷ [])
      ≡ decoded (flag ∷ (unescape body ++ flag ∷ []))
framed_run body =
    loop_lem (length (flag ∷ (body ++ flag ∷ []))) (flag ∷ []) body (flag ∷ [])
      (omega (arith, length-append body (flag ∷ [])))

-- `Decode` on two bytes or more: unless the first and the last are flags it returns -1, and otherwise
-- it writes the flags with the unescaped bytes between them.
pub decode-unescape :
    (a z : ℕ) (body : List ℕ)
    → decode (a ∷ (body ++ z ∷ []))
      ≡ (if a == flag && z == flag then decoded (flag ∷ (unescape body ++ flag ∷ [])) else refused)
unfolding decode at
decode-unescape a z body =
    let size : length (a ∷ (body ++ z ∷ [])) - 1 ≡ length (a ∷ body) =
      omega (arith, length-append body (z ∷ [])) in
    rw (size, at-append (a ∷ body) z [] _)
      (elim (Bool-cases (a == flag && z == flag)) [
        | inl framed ↦
            let first_flag : a ≡ flag = ground arith in
            let last_flag : z ≡ flag = ground arith in
            rw (framed, first_flag, last_flag) (framed_run body)
        | inr other ↦ rw other refl
      ])

-- What a sender does with the bytes of a message: the inverse that the source does not hold.
unfoldable pub escape_all : List ℕ → List ℕ
escape_all [] = []
escape_all (b ∷ bs) =
    if b == flag
    then escape ∷ 0x02 ∷ escape_all bs
    else if b == escape
    then escape ∷ 0x01 ∷ escape_all bs
    else b ∷ escape_all bs

-- A body that begins with no escape byte gives its first byte.
unescape-cons : (b : ℕ) (bs : List ℕ) → (b == escape) ≡ false → unescape (b ∷ bs) ≡ b ∷ unescape bs
unescape-cons b [] ne = rw (unescape-nil, unescape_one)
unescape-cons b (c ∷ bs) ne = unescape-plain b c bs (ground arith) (ground arith)

unescape-escape_all : (bs : List ℕ) → unescape (escape_all bs) ≡ bs
unfolding escape_all
unescape-escape_all [] = unescape-nil
unescape-escape_all (b ∷ bs) = ground (
  arith,
  unescape-escape_all bs,
  unescape-cons b (escape_all bs),
  unescape-two escape 0x02 (escape_all bs),
  unescape-one escape 0x01 (escape_all bs),
)

-- `Decode` of a framed and escaped message gives the message between two flags, whatever its bytes.
pub decode-escape_all :
    (message : List ℕ)
    → decode (flag ∷ (escape_all message ++ flag ∷ [])) ≡ decoded (flag ∷ (message ++ flag ∷ []))
decode-escape_all message =
    decode-unescape flag flag (escape_all message) ∙ rw (unescape-escape_all message)

length-unescape : (body : List ℕ) → length (unescape body) ≤ length body
length-unescape [] = rw unescape-nil (omega arith)
length-unescape (b ∷ []) = rw unescape_one (omega arith)
length-unescape (b ∷ c ∷ rest) = elim (Bool-cases (b == escape && c == 0x02)) [
  | inl two ↦ rw (unescape-two b c rest two) (omega (arith, length-unescape rest))
  | inr not_two ↦ elim (Bool-cases (b == escape && c == 0x01)) [
    | inl one ↦ rw (unescape-one b c rest not_two one) (omega (arith, length-unescape rest))
    | inr plain ↦
        rw (unescape-plain b c rest not_two plain) (omega (arith, length-unescape (c ∷ rest)))
  ]
]

-- The bytes that a call wrote.
abbrev pub written : Decoded → List ℕ
written (decoded out) = out
written out_of_bounds = []
written out_of_fuel = []
written refused = []

-- `Decode` on a framed input of two bytes or more writes at least two bytes and at most as many as it
-- was given, so a buffer as large as the input is enough.
pub length-decode :
    (body : List ℕ)
    → (2 ≤ length (written (decode (flag ∷ (body ++ flag ∷ [])))))
      × (length (written (decode (flag ∷ (body ++ flag ∷ []))))
          ≤ length (flag ∷ (body ++ flag ∷ [])))
length-decode body = rw (decode-unescape flag flag body) (
  omega (arith, length-append (unescape body) (flag ∷ [])),
  omega (
    arith,
    length-append (unescape body) (flag ∷ []),
    length-append body (flag ∷ []),
    length-unescape body,
  ),
)

-- A single flag is taken for a whole frame: `Decode` writes two bytes for the one that it was given.
pub decode_one :
    (a : ℕ) → decode (a ∷ []) ≡ (if a == flag then decoded (flag ∷ flag ∷ []) else refused)
unfolding decode loop at
decode_one a = ground arith
