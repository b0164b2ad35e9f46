-- ===== src/Logger/Dumps.antt =====
-- The lines that `loghex` of log.c builds in its buffer from the bytes of a dump: how long they are, and
-- when the buffer, or the string that the level's name is, is too short for them.
use epoll_net.Base.{
  ℕ, zero, suc, ◌+◌, ◌-◌, ◌*◌, ◌/◌, ◌≤◌, ◌<◌, List, [], ◌∷◌, ◌++◌, ◌≡◌, ◌∙◌, refl, arith, length,
  take, length-append, le→ltb, inl, inr,
}
use epoll_net.Logger.{
  level_hex, level_name, name_len, buf_len, Line, over_read, overflow, line, put_name, hex_digits,
  put_hex, finish, dump_text, hex_line,
}
use epoll_net.Logger.Lines.{
  length-take, length-take_full, put-fits, put-overflow, finish-line, less_or_not, name_bytes,
  put_name-fits, put_name-overflow,
}

length-hex_digits :
    (n : ℕ) (bytes : List ℕ) → length (hex_digits n bytes) ≡ 2 * length (take n bytes)
length-hex_digits zero bytes = refl
length-hex_digits (suc n) [] = refl
length-hex_digits (suc n) (b ∷ bytes) = let ih = length-hex_digits n bytes in omega arith

module _ (bytes before : List ℕ) where
  put_hex-line :
      length before + 2 * length (take (buf_len / 2) bytes) ≤ buf_len
      → put_hex bytes before
        ≡ line (take (buf_len - 10) (before ++ hex_digits (buf_len / 2) bytes) ++ 10 ∷ [])
  unfolding put_hex
  put_hex-line fits =
      let digits = length-hex_digits (buf_len / 2) bytes in
      let all = before ++ hex_digits (buf_len / 2) bytes in
      let cut = length-take (buf_len - 10) all in
      put-fits before (hex_digits (buf_len / 2) bytes) (λ all. finish (take (buf_len - 10) all))
        (omega arith)
      ∙ finish-line (take (buf_len - 10) all) (omega arith)

  put_hex-overflow :
      buf_len < length before + 2 * length (take (buf_len / 2) bytes)
      → put_hex bytes before ≡ overflow
  unfolding put_hex
  put_hex-overflow long =
      let digits = length-hex_digits (buf_len / 2) bytes in
      put-overflow before (hex_digits (buf_len / 2) bytes) (λ all. finish (take (buf_len - 10) all))
        (omega arith)

module _ (behind stamp text bytes : List ℕ) where
  -- The bytes of a dump, without the end of the line.
  abbrev pub dumped : List ℕ
  dumped =
      ((stamp ++ dump_text text) ++ name_bytes level_hex behind) ++ hex_digits (buf_len / 2) bytes

  abbrev pub dumped_len : ℕ
  dumped_len =
      length stamp + length (dump_text text) + name_len + 2 * length (take (buf_len / 2) bytes)

  length-behind : 0 < length behind → name_len ≤ length (level_name level_hex ++ behind)
  length-behind there = omega arith

  head_len : length (stamp ++ dump_text text) ≡ length stamp + length (dump_text text)
  head_len = length-append stamp (dump_text text)

  named_len :
      0 < length behind
      → length ((stamp ++ dump_text text) ++ name_bytes level_hex behind)
        ≡ length stamp + length (dump_text text) + name_len
  named_len there =
      let full = length-take_full name_len (level_name level_hex ++ behind) (length-behind there) in
      let joined = length-append (stamp ++ dump_text text) (name_bytes level_hex behind) in
      let head = head_len in omega arith

  abbrev named : Line
  named = put_name behind level_hex (stamp ++ dump_text text) (put_hex bytes)

  dumped_head :
      length stamp + length (dump_text text) ≤ buf_len → hex_line behind stamp text bytes ≡ named
  unfolding hex_line
  dumped_head fits =
      put-fits stamp (dump_text text) (λ before. put_name behind level_hex before (put_hex bytes))
        fits

  dumped_name :
      0 < length behind
      → length stamp + length (dump_text text) + name_len ≤ buf_len
      → hex_line behind stamp text bytes
        ≡ put_hex bytes ((stamp ++ dump_text text) ++ name_bytes level_hex behind)
  dumped_name there fits =
      let head = head_len in
      dumped_head (omega arith)
      ∙ put_name-fits behind level_hex (stamp ++ dump_text text) (put_hex bytes)
          (length-behind there) (omega arith)

  pub hex_line-line :
      0 < length behind
      → dumped_len ≤ buf_len
      → hex_line behind stamp text bytes ≡ line (take (buf_len - 10) dumped ++ 10 ∷ [])
  hex_line-line there fits =
      let named = named_len there in
      dumped_name there (omega arith)
      ∙ put_hex-line bytes ((stamp ++ dump_text text) ++ name_bytes level_hex behind) (omega arith)

  pub hex_line-overflow :
      0 < length behind → buf_len < dumped_len → hex_line behind stamp text bytes ≡ overflow
  unfolding hex_line
  hex_line-overflow there long =
      let named = named_len there in
      let head = head_len in
      elim (less_or_not buf_len (length stamp + length (dump_text text))) [
        | inl h ↦
            put-overflow stamp (dump_text text)
              (λ before. put_name behind level_hex before (put_hex bytes)) h
        | inr h ↦ elim (less_or_not buf_len (length stamp + length (dump_text text) + name_len)) [
          | inl h' ↦
              dumped_head h
              ∙ put_name-overflow behind level_hex (stamp ++ dump_text text) (put_hex bytes)
                  (length-behind there) (omega arith)
          | inr h' ↦
              dumped_name there h'
              ∙ put_hex-overflow bytes ((stamp ++ dump_text text) ++ name_bytes level_hex behind)
                  (omega arith)
        ]
      ]

  pub hex_line-over_read :
      length stamp + length (dump_text text) ≤ buf_len → hex_line [] stamp text bytes ≡ over_read
  unfolding hex_line
  hex_line-over_read fits = rw (le→ltb buf_len (length stamp + length (dump_text text)) fits)
