-- ===== src/Logger/Digits.antt =====
-- The digits of a dump in log.c, read back.
use epoll_net.Base.{
  ℕ, zero, suc, ◌+◌, ◌-◌, ◌*◌, ◌/◌, ◌%◌, ◌≤◌, ◌<◌, ◌≡◌, ◌⊎◌, refl, ap, ◌∙◌, List, [], ◌∷◌, arith,
  ltb, if◌then◌else◌, take,
}
use epoll_net.Logger.{hex_digit, hex_digits, buf_len}

module _ (P : ℕ → Type 0) where
  abbrev pub All : List ℕ → Type 0
  All [] = Unit {0}
  All (x ∷ xs) = P x × All xs

-- 0 to 9 or A to F.
abbrev pub IsDigit : ℕ → Type 0
IsDigit c = (48 ≤ c) × (c ≤ 57) ⊎ (65 ≤ c) × (c ≤ 70)

-- The value of a digit, and the bytes of pairs of digits.
abbrev pub digit_value : ℕ → ℕ
digit_value c = if ltb c 58 then c - 48 else c - 55

abbrev pub read_digits : List ℕ → List ℕ
read_digits [] = []
read_digits (c ∷ []) = []
read_digits (c ∷ d ∷ cs) = (16 * digit_value c + digit_value d) ∷ read_digits cs

digit_value-hex_digit : (n : ℕ) → n < 16 → digit_value (hex_digit n) ≡ n
digit_value-hex_digit n small = ground arith

hex_digit-IsDigit : (n : ℕ) → n < 16 → IsDigit (hex_digit n)
hex_digit-IsDigit n small = ground arith

pair_value :
    (b : ℕ) → b < 256 → 16 * digit_value (hex_digit (b / 16)) + digit_value (hex_digit (b % 16)) ≡ b
pair_value b small = omega (
  arith,
  digit_value-hex_digit (b / 16) (omega arith),
  digit_value-hex_digit (b % 16) (omega arith),
)

read_digits-hex_digits :
    (n : ℕ) (bytes : List ℕ)
    → All (λ b. b < 256) bytes
    → (read_digits (hex_digits n bytes) ≡ take n bytes) × All IsDigit (hex_digits n bytes)
read_digits-hex_digits zero bytes small = (refl, tt)
read_digits-hex_digits (suc n) [] small = (refl, tt)
read_digits-hex_digits (suc n) (b ∷ bytes) (small, rest) =
    let (back, digits) = read_digits-hex_digits n bytes rest in
    (
      ap (λ x. x ∷ read_digits (hex_digits n bytes)) (pair_value b small) ∙ ap (λ q. b ∷ q) back,
      (
        hex_digit-IsDigit (b / 16) (omega arith),
        (hex_digit-IsDigit (b % 16) (omega arith), digits),
      ),
    )

-- The digits of a dump are 0 to 9 and A to F, and read in pairs they give the bytes back, or the first
-- 2048 of more, when each is below 256.
pub hex_digits-IsDigit :
    (bytes : List ℕ)
    → All (λ b. b < 256) bytes
    → (read_digits (hex_digits (buf_len / 2) bytes) ≡ take (buf_len / 2) bytes)
      × All IsDigit (hex_digits (buf_len / 2) bytes)
hex_digits-IsDigit bytes small = read_digits-hex_digits (buf_len / 2) bytes small
