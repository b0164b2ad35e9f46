-- ===== src/Logger/Lines.antt =====
-- The lines that `logv` of log.c builds in its buffer from a text.
use epoll_net.Base.{
  Bool, true, false, Option, ◌∙◌, ℕ, zero, suc, ◌+◌, ◌-◌, ◌≤◌, ◌<◌, some, List, [], ◌∷◌, ◌++◌, ◌≡◌,
  refl, arith, length, take, length-append, lt→ltb, le→ltb, ◌⊎◌, inl, inr,
}
use epoll_net.Logger.{
  Level, level_name, name_len, buf_len, Line, over_read, overflow, line, put, put_name, expanded,
  put_text, finish, plain_line, logv_line, level_none, level_error, level_warn, level_debug,
  level_info, level_hex, level_other,
}

pub less_or_not : (a b : ℕ) → (a < b) ⊎ (b ≤ a)
less_or_not zero zero = inr (omega arith)
less_or_not zero (suc b) = inl (omega arith)
less_or_not (suc a) zero = inr (omega arith)
less_or_not (suc a) (suc b) = elim (less_or_not a b) [
  | inl h ↦ inl (omega arith)
  | inr h ↦ inr (omega arith)
]

module _ {A : Type 0} where
  pub length-take : (n : ℕ) (xs : List A) → length (take n xs) ≤ n
  length-take zero xs = omega arith
  length-take (suc n) [] = omega arith
  length-take (suc n) (x ∷ xs) = let ih = length-take n xs in omega arith

  pub length-take_full : (n : ℕ) (xs : List A) → n ≤ length xs → length (take n xs) ≡ n
  length-take_full zero xs h = refl
  length-take_full (suc n) [] h = omega arith
  length-take_full (suc n) (x ∷ xs) h = let ih = length-take_full n xs (omega arith) in omega arith

length-expanded : (n : ℕ) (text : List ℕ) → length (expanded n text) ≤ n
length-expanded zero text = omega arith
length-expanded (suc n) text =
    let cut = length-take n text in
    let joined = length-append (take n text) (0 ∷ []) in ground arith

expanded-fits : (n : ℕ) (text : List ℕ) → length text < n → expanded n text ≡ text
expanded-fits zero text h = absurd (omega arith)
expanded-fits (suc n) text h = rw (lt→ltb (length text) (suc n) h)

pub put-fits :
    (before bytes : List ℕ) (k : List ℕ → Line)
    → length before + length bytes ≤ buf_len
    → put before bytes k ≡ k (before ++ bytes)
unfolding put
put-fits before bytes k h = rw (le→ltb buf_len (length before + length bytes) h)

pub put-overflow :
    (before bytes : List ℕ) (k : List ℕ → Line)
    → buf_len < length before + length bytes
    → put before bytes k ≡ overflow
unfolding put
put-overflow before bytes k h = rw (lt→ltb buf_len (length before + length bytes) h)

pub finish-line :
    (before : List ℕ) → length before ≤ buf_len - 2 → finish before ≡ line (before ++ 10 ∷ [])
unfolding finish
finish-line before h = put-fits before (10 ∷ 0 ∷ []) (λ _. line (before ++ 10 ∷ [])) (omega arith)

abbrev pub is_hex : Level → Bool
is_hex level_hex = true
is_hex _ = false

logv_line-plain :
    (behind : List ℕ) (level : Level) (stamp : List ℕ) (text : Option (List ℕ))
    → is_hex level ≡ false
    → logv_line behind level stamp text ≡ plain_line behind level stamp text
unfolding logv_line
logv_line-plain behind level_none stamp text plain = refl
logv_line-plain behind level_error stamp text plain = refl
logv_line-plain behind level_warn stamp text plain = refl
logv_line-plain behind level_debug stamp text plain = refl
logv_line-plain behind level_info stamp text plain = refl
logv_line-plain behind level_hex stamp text plain = absurd cc
logv_line-plain behind level_other stamp text plain = refl

-- The 8 bytes that are copied for the name of a level.
abbrev pub name_bytes : Level → List ℕ → List ℕ
name_bytes level behind = take name_len (level_name level ++ behind)

module _ (behind : List ℕ) (level : Level) where
  -- The names that are shorter than 8 bytes with their 0 need bytes behind them.
  pub put_name-fits :
      (before : List ℕ) (k : List ℕ → Line)
      → name_len ≤ length (level_name level ++ behind)
      → length before + name_len ≤ buf_len
      → put_name behind level before k ≡ k (before ++ name_bytes level behind)
  unfolding put_name
  put_name-fits before k name room =
      let full = length-take_full name_len (level_name level ++ behind) name in
      rw (
        le→ltb (length (level_name level ++ behind)) name_len name,
        put-fits before (name_bytes level behind) k (omega arith),
      )

  pub put_name-over_read :
      (before : List ℕ) (k : List ℕ → Line)
      → length (level_name level ++ behind) < name_len
      → put_name behind level before k ≡ over_read
  unfolding put_name
  put_name-over_read before k short =
      rw (lt→ltb (length (level_name level ++ behind)) name_len short)

  pub put_name-overflow :
      (before : List ℕ) (k : List ℕ → Line)
      → name_len ≤ length (level_name level ++ behind)
      → buf_len < length before + name_len
      → put_name behind level before k ≡ overflow
  unfolding put_name
  put_name-overflow before k name long =
      let full = length-take_full name_len (level_name level ++ behind) name in
      rw (
        le→ltb (length (level_name level ++ behind)) name_len name,
        put-overflow before (name_bytes level behind) k (omega arith),
      )

  -- The line of a text: the time, the name, the text or as much of it as there is room for, the end.
  abbrev pub text_line : List ℕ → List ℕ → List ℕ
  text_line stamp text =
      let before = stamp ++ name_bytes level behind in
      (before ++ expanded (buf_len - 10 - length before) text) ++ 10 ∷ []

  module _ (stamp text : List ℕ) (name : name_len ≤ length (level_name level ++ behind))
      (short : length stamp ≤ buf_len - 10 - name_len) where
    pub plain_line-line : plain_line behind level stamp (some text) ≡ line (text_line stamp text)
    unfolding plain_line put_text
    plain_line-line =
        let full = length-take_full name_len (level_name level ++ behind) name in
        let joined = length-append stamp (name_bytes level behind) in
        let before = stamp ++ name_bytes level behind in
        let bytes = expanded (buf_len - 10 - length before) text in
        let most = length-expanded (buf_len - 10 - length before) text in
        let all = length-append before bytes in
        rw (
          put_name-fits stamp (put_text (some text)) name (omega arith),
          le→ltb (buf_len - 10) (length before) (omega arith),
          put-fits before bytes finish (omega arith),
          finish-line (before ++ bytes) (omega arith),
        )

    pub logv_line-line :
        is_hex level ≡ false
        → logv_line behind level stamp (some text) ≡ line (text_line stamp text)
    logv_line-line plain = logv_line-plain behind level stamp (some text) plain ∙ plain_line-line

    pub length-text_line : length (text_line stamp text) ≤ buf_len - 9
    length-text_line =
        let full = length-take_full name_len (level_name level ++ behind) name in
        let joined = length-append stamp (name_bytes level behind) in
        let before = stamp ++ name_bytes level behind in
        let bytes = expanded (buf_len - 10 - length before) text in
        let most = length-expanded (buf_len - 10 - length before) text in
        let all = length-append before bytes in
        let ended = length-append (before ++ bytes) (10 ∷ []) in omega arith

    pub text_line-whole :
        length stamp + name_len + length text < buf_len - 10
        → text_line stamp text ≡ ((stamp ++ name_bytes level behind) ++ text) ++ 10 ∷ []
    text_line-whole fits =
        let full = length-take_full name_len (level_name level ++ behind) name in
        let joined = length-append stamp (name_bytes level behind) in
        rw (
          expanded-fits (buf_len - 10 - length (stamp ++ name_bytes level behind)) text
            (omega arith))
