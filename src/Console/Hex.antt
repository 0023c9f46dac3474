-- ===== src/Console/Hex.antt =====
-- `print_hex` of kernel/kernel_main.c: which digits it prints.
use mathlib.Core.List.{map}
use native.Mathlib.Nat.{
  pow-suc, one-le-pow, mod-lt, div-add-mod, mod-eq_of_lt, mul-add-mod_self_left,
}
use zer0s.Prelude.{
  ℕ, zero, suc, ◌+◌, ◌*◌, ◌/◌, ◌%◌, ◌^◌, ◌<◌, ◌≡◌, ◌≢◌, ◌⊎◌, inl, inr, Bool-cases, ◌∙◌, refl, ap,
  Bool, true, false, ◌||◌, not, List, [], ◌∷◌, arith, ◌==◌, if◌then◌else◌, get_or, bytes, utf8,
  holds_below, holds_below_lem,
}
use zer0s.Console.{
  Console, terminal_writechar, terminal_writestring, hex_digit, hex_round, hex_rounds, print_hex,
}

-- The number that hexadecimal digits stand for, behind the value `acc` of those before them.
unfoldable pub hex_value : ℕ → List ℕ → ℕ
hex_value acc [] = acc
hex_value acc (d ∷ ds) = hex_value (acc * 16 + d) ds

-- Every digit is below 16.
abbrev pub AllDigits : List ℕ → Type 0
AllDigits [] = Unit
AllDigits (d ∷ ds) = (d < 16) × AllDigits ds

-- No leading zero, unless the text is the single digit 0.
abbrev pub IsCanonical : List ℕ → Type 0
IsCanonical [] = ⊥
IsCanonical (d ∷ []) = Unit
IsCanonical (d ∷ e ∷ ds) = d ≢ 0

-- The digits at the shifts from `4 * k - 4` down that the loop prints.
printed : ℕ → ℕ → Bool → List ℕ
printed v zero started = []
printed v (suc k) started =
    let d = v / 2 ^ (4 * k) % 16 in
    if not (d == 0) || started || (4 * k == 0) then d ∷ printed v k true else printed v k started

hex_digit-zero : (d : ℕ) → d < 16 → (hex_digit d == b'0') ≡ (d == 0)
unfolding hex_digit
hex_digit-zero d h = ground arith

hex_rounds-printed :
    (v k : ℕ) (started : Bool) (t : Console)
    → (hex_rounds v k (started, t)).1 ≡ terminal_writestring (map hex_digit (printed v k started)) t
unfolding hex_rounds hex_round printed terminal_writestring
hex_rounds-printed v zero started t = refl
hex_rounds-printed v (suc k) started t = ground (
  arith,
  hex_digit-zero (v / 2 ^ (4 * k) % 16),
  hex_rounds-printed v k true (terminal_writechar (hex_digit (v / 2 ^ (4 * k) % 16)) t),
  hex_rounds-printed v k started t,
)

pow16-suc : (k : ℕ) → 2 ^ (4 * suc k) ≡ 16 * 2 ^ (4 * k)
pow16-suc k =
    let e : 4 * suc k ≡ suc (suc (suc (suc (4 * k)))) = omega arith in
    rw (e, pow-suc, pow-suc, pow-suc, pow-suc) (omega arith)

-- The remainder by `16 * p`, as a digit and the remainder by `p`.
mod16-digit : (v p : ℕ) → 0 < p → v % (16 * p) ≡ v / p % 16 * p + v % p
mod16-digit v p pos =
    let q = v / p in
    let x = q % 16 * p + v % p in
    let split : v ≡ 16 * p * (q / 16) + x =
      omega (arith, div-add-mod v p, ap (λ (t : ℕ). p * t) (div-add-mod q 16)) in
    let small : x < 16 * p = grind (arith, mod-lt v pos) in
    ap (λ (t : ℕ). t % (16 * p)) split
    ∙ mul-add-mod_self_left (16 * p) (q / 16) x
    ∙ mod-eq_of_lt small

hex_value-printed :
    (v k : ℕ) (started : Bool) (acc : ℕ)
    → (started ≡ true) ⊎ (acc ≡ 0)
    → hex_value acc (printed v k started) ≡ acc * 2 ^ (4 * k) + v % 2 ^ (4 * k)
unfolding hex_value printed
hex_value-printed v zero started acc h = omega arith
hex_value-printed v (suc k) started acc h =
    let p = 2 ^ (4 * k) in
    let d = v / p % 16 in
    let low : v % 2 ^ (4 * suc k) ≡ d * p + v % p =
      ap (λ (t : ℕ). v % t) (pow16-suc k) ∙ mod16-digit v p (one-le-pow (4 * k) 2 (omega arith)) in
    let high : acc * 2 ^ (4 * suc k) ≡ 16 * (acc * p) =
      omega (arith, ap (λ (t : ℕ). acc * t) (pow16-suc k)) in
    let zeros : d ≡ 0 → d * p ≡ 0 = λ e. rw e (omega arith) in
    elim (Bool-cases (not (d == 0) || started || (4 * k == 0))) [
      | inl out ↦
          rw out (omega (arith, low, high, hex_value-printed v k true (acc * 16 + d) (inl refl)))
      | inr skip ↦
          let d0 : d ≡ 0 = ground arith in
          let a0 : acc ≡ 0 = ground arith in
          let a1 : acc * p ≡ 0 = rw a0 (omega arith) in
          rw skip (omega (arith, low, high, zeros d0, a1, hex_value-printed v k started acc h))
    ]

AllDigits-printed : (v k : ℕ) (started : Bool) → AllDigits (printed v k started)
unfolding printed
AllDigits-printed v zero started = tt
AllDigits-printed v (suc k) started =
    ground (arith, AllDigits-printed v k true, AllDigits-printed v k started)

-- What is printed before the first digit other than 0 is nothing, or the last digit.
IsCanonical-printed : (v k : ℕ) → IsCanonical (printed v (suc k) false)
unfolding printed
IsCanonical-printed v zero = ground arith
IsCanonical-printed v (suc k) = ground (arith, IsCanonical-printed v k)

-- The text that `print_hex` writes behind `0x` has digits below 16 whose value is the argument,
-- and no leading zero but for the number 0.
pub record PrintsHex (v : ℕ) (t : Console) : Type 0 where
  pub digits : List ℕ
  pub written : print_hex v t ≡ terminal_writestring (b'0' ∷ b'x' ∷ map hex_digit digits) t
  pub value : hex_value 0 digits ≡ v
  pub in_range : AllDigits digits
  pub canonical : IsCanonical digits
  pub characters : (d : ℕ) → d < 16 → hex_digit d ≡ get_or (bytes "0123456789ABCDEF") d 0

digit_table : holds_below (λ d. hex_digit d == get_or (bytes "0123456789ABCDEF") d 0) 16 ≡ true
unfolding holds_below hex_digit bytes utf8
digit_table = refl

hex_digit-get_or : (d : ℕ) → d < 16 → hex_digit d ≡ get_or (bytes "0123456789ABCDEF") d 0
hex_digit-get_or d lt = ground (arith, holds_below_lem _ 16 digit_table d lt)

-- Every 64-bit number is printed in canonical hexadecimal, with the characters 0 to 9 and A to F.
pub print_hex-PrintsHex : (v : ℕ) (t : Console) → v < 2 ^ 64 → PrintsHex v t
unfolding print_hex terminal_writestring
print_hex-PrintsHex v t h = record {
  digits = printed v 16 false;
  written = hex_rounds-printed v 16 false (terminal_writechar b'x' (terminal_writechar b'0' t));
  value = omega (arith, hex_value-printed v 16 false 0 (inr refl));
  in_range = AllDigits-printed v 16 false;
  canonical = IsCanonical-printed v 15;
  characters = hex_digit-get_or;
}
