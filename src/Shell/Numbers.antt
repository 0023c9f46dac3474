-- ===== src/Shell/Numbers.antt =====
-- The decimal argument of `hex` and `kmalloc`, and what `hex` prints of it.
use zer0s.Prelude.{ℕ, ◌+◌, ◌-◌, ◌*◌, ◌<◌, ◌≡◌, ◌⊎◌, refl, arith, List, [], ◌∷◌, ◌++◌, u64}
use zer0s.Shell.{read_decimal}

-- The number that a list of decimal digits stands for, behind the digits of `acc`.
unfoldable pub decimal_value : ℕ → List ℕ → ℕ
decimal_value acc [] = acc
decimal_value acc (d ∷ ds) = decimal_value (acc * 10 + d) ds

abbrev pub AllDecimal : List ℕ → Type 0
AllDecimal [] = Unit
AllDecimal (d ∷ ds) = (d < 10) × AllDecimal ds

-- The text behind a number: nothing, or a byte that is no digit.
abbrev pub EndsNumber : List ℕ → Type 0
EndsNumber [] = Unit
EndsNumber (c ∷ s) = (c < b'0') ⊎ (b'9' < c)

-- The bytes of the digits.
abbrev pub digit_bytes : List ℕ → List ℕ
digit_bytes [] = []
digit_bytes (d ∷ ds) = (b'0' + d) ∷ digit_bytes ds

read_decimal_from :
    (acc : ℕ) (ds s : List ℕ)
    → AllDecimal ds
    → EndsNumber s
    → read_decimal (u64 acc) (digit_bytes ds ++ s) ≡ u64 (decimal_value acc ds)
unfolding read_decimal decimal_value
read_decimal_from acc [] [] ok ends = refl
read_decimal_from acc [] (c ∷ s) ok ends = ground arith
read_decimal_from acc (d ∷ ds) s (lt, ok) ends =
    let next : u64 (u64 acc * 10 + (b'0' + d - b'0')) ≡ u64 (acc * 10 + d) = omega arith in
    let rest = read_decimal_from (acc * 10 + d) ds s ok ends in ground (arith, next, rest)

-- The loop reads the digits in front as a decimal number, modulo 2 ^ 64.
pub read_decimal-decimal_value :
    (ds s : List ℕ)
    → AllDecimal ds
    → EndsNumber s
    → read_decimal 0 (digit_bytes ds ++ s) ≡ u64 (decimal_value 0 ds)
read_decimal-decimal_value ds s ok ends = read_decimal_from 0 ds s ok ends
