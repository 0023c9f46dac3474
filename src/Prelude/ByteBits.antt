-- ===== src/Prelude/ByteBits.antt =====
-- Setting and clearing one bit of a byte, checked on all bytes.
use Prim.Native.Nat.{ℕ, ◌-◌, ◌^◌, ◌<◌, bit_and, bit_or}
use mathlib.Core.Path.{◌≡◌, refl}
use mathlib.Core.Bool.{Bool, true, false, not}
use native.Mathlib.Omega.{arith}
use zer0s.Prelude.Tests.{◌==◌, if◌then◌else◌}
use zer0s.Prelude.Words.{u8}
use zer0s.Prelude.Bytes.{holds_below, holds_below_lem}

unfoldable pub bool_eq : Bool → Bool → Bool
bool_eq true b = b
bool_eq false b = not b

pub bool_eq_sound : (a b : Bool) → bool_eq a b ≡ true → a ≡ b
unfolding bool_eq
bool_eq_sound true b h = ground arith
bool_eq_sound false b h = ground arith

-- Bit `k` of a byte, as `x & (1 << k)` tests it.
unfoldable pub byte_bit : ℕ → ℕ → Bool
byte_bit x k = not (bit_and x (2 ^ k) == 0)

set_table :
    holds_below
      (λ x.
        holds_below
          (λ k.
            holds_below
              (λ j.
                bool_eq
                  (byte_bit (u8 (bit_or x (2 ^ k))) j)
                  (if k == j then true else byte_bit x j))
              8)
          8)
      256
    ≡ true
unfolding holds_below byte_bit bool_eq
set_table = refl

clear_table :
    holds_below
      (λ x.
        holds_below
          (λ k.
            holds_below
              (λ j.
                bool_eq
                  (byte_bit (u8 (bit_and x (2 ^ 32 - 1 - 2 ^ k))) j)
                  (if k == j then false else byte_bit x j))
              8)
          8)
      256
    ≡ true
unfolding holds_below byte_bit bool_eq
clear_table = refl

module _ (x k j : ℕ) (hx : x < 256) (hk : k < 8) (hj : j < 8) where
  pub byte_bit-or : byte_bit (u8 (bit_or x (2 ^ k))) j ≡ (if k == j then true else byte_bit x j)
  byte_bit-or =
      bool_eq_sound _ _
        (holds_below_lem _ 8 (holds_below_lem _ 8 (holds_below_lem _ 256 set_table x hx) k hk) j hj)

  pub byte_bit-clear :
      byte_bit (u8 (bit_and x (2 ^ 32 - 1 - 2 ^ k))) j ≡ (if k == j then false else byte_bit x j)
  byte_bit-clear =
      bool_eq_sound _ _ (
        holds_below_lem _ 8 (holds_below_lem _ 8 (holds_below_lem _ 256 clear_table x hx) k hk) j
          hj)
