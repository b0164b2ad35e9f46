-- ===== src/Frame/Unescape.antt =====
-- What `Decode` computes, by recursion on the bytes between the two flags.
use epoll_net.Base.{
  ℕ, zero, suc, ◌+◌, ◌-◌, ◌≤◌, ◌<◌, ◌≡◌, refl, ◌∙◌, true, false, ◌&&◌, inl, inr, List, [], ◌∷◌,
  ◌++◌, arith, length, length-append, ◌==◌, if◌then◌else◌, lt→ltb, le→ltb, Bool-cases, append_assoc,
}
use mathlib.Core.Path.{subst₃}
use epoll_net.Frame.{Decoded, decoded, flag, escape, at, escaped, round, loop}

-- The body of a frame; a lone escape byte, and one before any other byte, stands for itself.
unfoldable pub unescape : List ℕ → List ℕ
unescape [] = []
unescape (b ∷ []) = b ∷ []
unescape (b ∷ c ∷ rest) = elim (b == escape && c == 0x02) [
  | true ↦ flag ∷ unescape rest
  | false ↦ elim (b == escape && c == 0x01) [
    | true ↦ escape ∷ unescape rest
    | false ↦ b ∷ unescape (c ∷ rest)
  ]
]

pub unescape-nil : unescape [] ≡ []
unfolding unescape
unescape-nil = refl

pub unescape_one : {b : ℕ} → unescape (b ∷ []) ≡ b ∷ []
unfolding unescape
unescape_one = refl

pub at-append :
    (pre : List ℕ) (x : ℕ) (rest : List ℕ) (k : ℕ → Decoded)
    → at (pre ++ x ∷ rest) (length pre) k ≡ k x
unfolding at
at-append [] x rest k = refl
at-append (p ∷ pre) x rest k = at-append pre x rest k

at-append_next :
    (pre : List ℕ) (x y : ℕ) (rest : List ℕ) (k : ℕ → Decoded)
    → at (pre ++ x ∷ y ∷ rest) (length pre + 1) k ≡ k y
at-append_next pre x y rest k =
    rw (← append_assoc pre (x ∷ []) (y ∷ rest), ← length-append pre (x ∷ []))
      (at-append (pre ++ x ∷ []) y rest k)

-- The byte that a round of the loop writes, and how many it passes over, at a body's front.
abbrev step : ℕ → List ℕ → ℕ × ℕ
step b [] = (b, 1)
step b (c ∷ _) =
    if b == escape && c == 0x02
    then (flag, 2)
    else if b == escape && c == 0x01
    then (escape, 2)
    else (b, 1)

module _ (pre : List ℕ) (k : ℕ → ℕ → Decoded) (b : ℕ) where
  round-step :
      (c : ℕ) (rest : List ℕ)
      → round (pre ++ b ∷ c ∷ rest) (length pre) k ≡ k (step b (c ∷ rest)).0 (step b (c ∷ rest)).1
  unfolding round
  round-step c rest =
      at-append pre b (c ∷ rest) _ ∙ ground (arith, at-append_next pre b c rest (escaped k))

  -- The flag behind a body of one byte is no second half.
  round-last : round (pre ++ b ∷ flag ∷ []) (length pre) k ≡ k b 1
  round-last = round-step flag [] ∙ ground arith

module _ (bytes : List ℕ) (fuel i : ℕ) (out : List ℕ) where
  loop-more :
      i + 1 < length bytes
      → loop bytes (suc fuel) i out ≡ round bytes i (λ b n. loop bytes fuel (i + n) (out ++ b ∷ []))
  unfolding loop
  loop-more h = rw (lt→ltb (i + 1) (length bytes) h)

  loop-stop :
      length bytes ≤ i + 1
      → loop bytes (suc fuel) i out ≡ at bytes (length bytes - 1) (λ z. decoded (out ++ z ∷ []))
  unfolding loop
  loop-stop h = rw (le→ltb (i + 1) (length bytes) h)

module _ (b c : ℕ) (rest : List ℕ) where
  pub unescape-two :
      (b == escape && c == 0x02) ≡ true → unescape (b ∷ c ∷ rest) ≡ flag ∷ unescape rest
  unfolding unescape
  unescape-two two = ground arith

  pub unescape-one :
      (b == escape && c == 0x02) ≡ false
      → (b == escape && c == 0x01) ≡ true
      → unescape (b ∷ c ∷ rest) ≡ escape ∷ unescape rest
  unfolding unescape
  unescape-one not_two one = ground arith

  pub unescape-plain :
      (b == escape && c == 0x02) ≡ false
      → (b == escape && c == 0x01) ≡ false
      → unescape (b ∷ c ∷ rest) ≡ b ∷ unescape (c ∷ rest)
  unfolding unescape
  unescape-plain not_two plain = ground arith

-- A run that goes on behind `mid`, with the byte `x` written.
module _ (fuel : ℕ) (pre mid body out : List ℕ) (x : ℕ) where
  loop-shift :
      loop ((pre ++ mid) ++ (body ++ flag ∷ [])) fuel (length (pre ++ mid)) (out ++ x ∷ [])
        ≡ decoded ((out ++ x ∷ []) ++ (unescape body ++ flag ∷ []))
      → loop (pre ++ (mid ++ (body ++ flag ∷ []))) fuel (length pre + length mid) (out ++ x ∷ [])
        ≡ decoded (out ++ (x ∷ (unescape body ++ flag ∷ [])))
  loop-shift run =
      subst₃ (λ bytes n w. loop bytes fuel n (out ++ x ∷ []) ≡ decoded w)
        (append_assoc pre mid (body ++ flag ∷ [])) (length-append pre mid)
        (append_assoc out (x ∷ []) (unescape body ++ flag ∷ [])) run

-- From a place inside a frame the loop writes the unescaped rest of the body and the flag.
pub loop_lem :
    (fuel : ℕ) (pre body out : List ℕ)
    → length body < fuel
    → loop (pre ++ (body ++ flag ∷ [])) fuel (length pre) out
      ≡ decoded (out ++ (unescape body ++ flag ∷ []))
loop_lem zero pre body out enough = absurd (omega arith)
loop_lem (suc fuel) pre [] out enough =
    let size : length (pre ++ flag ∷ []) - 1 ≡ length pre =
      omega (arith, length-append pre (flag ∷ [])) in
    loop-stop _ fuel _ out (omega (arith, length-append pre (flag ∷ [])))
    ∙ rw (size, unescape-nil) (at-append pre flag [] _)
loop_lem (suc fuel) pre (b ∷ []) out enough =
    loop-more _ fuel _ out (omega (arith, length-append pre (b ∷ flag ∷ [])))
    ∙ round-last pre _ b
    ∙ loop-shift fuel pre (b ∷ []) [] out b
        (loop_lem fuel (pre ++ b ∷ []) [] (out ++ b ∷ []) (omega arith))
    ∙ rw (unescape-nil, unescape_one)
loop_lem (suc fuel) pre (b ∷ c ∷ rest) out enough =
    loop-more _ fuel _ out (
      omega
        (arith, length-append pre (b ∷ c ∷ (rest ++ flag ∷ [])), length-append rest (flag ∷ [])))
    ∙ round-step pre _ b c (rest ++ flag ∷ [])
    ∙ elim (Bool-cases (b == escape && c == 0x02)) [
      | inl two ↦
          rw (two, unescape-two b c rest two)
            (loop-shift fuel pre (b ∷ c ∷ []) rest out flag
              (loop_lem fuel (pre ++ b ∷ c ∷ []) rest (out ++ flag ∷ []) (omega arith)))
      | inr not_two ↦ elim (Bool-cases (b == escape && c == 0x01)) [
        | inl one ↦
            rw (not_two, one, unescape-one b c rest not_two one)
              (loop-shift fuel pre (b ∷ c ∷ []) rest out escape
                (loop_lem fuel (pre ++ b ∷ c ∷ []) rest (out ++ escape ∷ []) (omega arith)))
        | inr plain ↦
            rw (not_two, plain, unescape-plain b c rest not_two plain)
              (loop-shift fuel pre (b ∷ []) (c ∷ rest) out b
                (loop_lem fuel (pre ++ b ∷ []) (c ∷ rest) (out ++ b ∷ []) (omega arith)))
      ]
    ]
