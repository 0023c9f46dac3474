-- ===== src/Frames/Bitmap.antt =====
-- The bitmap operations of kernel/arch/x86_64/memory.c, one bit to a frame.
use Prim.Native.Nat.{bit_and-bitwise}
use zer0s.Prelude.{
  ℕ, ◌-◌, ◌/◌, ◌%◌, ◌^◌, ◌<◌, ◌≡◌, Bool, true, false, not, arith, bit_or, bit_and, ◌==◌,
  if◌then◌else◌, store, u8, byte_bit, byte_bit-or, byte_bit-clear,
}

-- The bytes behind a `uint8_t*`.
abbrev pub Bytes : Type 0
Bytes = ℕ → ℕ

unfoldable pub bitmap_set_bit : Bytes → ℕ → Bytes
bitmap_set_bit bitmap bit = store bitmap (bit / 8) (u8 (bit_or (bitmap (bit / 8)) (2 ^ (bit % 8))))

-- `~(1 << k)` is an `int`.
unfoldable pub bitmap_clear_bit : Bytes → ℕ → Bytes
bitmap_clear_bit bitmap bit =
    store bitmap (bit / 8) (u8 (bit_and (bitmap (bit / 8)) (2 ^ 32 - 1 - 2 ^ (bit % 8))))

unfoldable pub bitmap_test_bit : Bytes → ℕ → Bool
bitmap_test_bit bitmap bit = not (bit_and (bitmap (bit / 8)) (2 ^ (bit % 8)) == 0)

-- Every byte fits `uint8_t`.
abbrev pub AreBytes : Bytes → Type 0
AreBytes bitmap = (i : ℕ) → bitmap i < 256

module _ (m : Bytes) (b : ℕ) (fits : AreBytes m) where
  pub bitmap_set_bit-AreBytes : AreBytes (bitmap_set_bit m b)
  unfolding bitmap_set_bit
  bitmap_set_bit-AreBytes i = ground (arith, fits i)

  pub bitmap_clear_bit-AreBytes : AreBytes (bitmap_clear_bit m b)
  unfolding bitmap_clear_bit
  bitmap_clear_bit-AreBytes i = ground (arith, fits i)

  -- Setting a bit sets that bit and no other.
  pub bitmap_test_bit-set :
      (j : ℕ)
      → bitmap_test_bit (bitmap_set_bit m b) j ≡ (if b == j then true else bitmap_test_bit m j)
  unfolding bitmap_set_bit bitmap_test_bit byte_bit
  bitmap_test_bit-set j = ground (arith, byte_bit-or (m (b / 8)) (b % 8) (j % 8) (fits (b / 8)))

  -- Clearing a bit clears that bit and no other.
  pub bitmap_test_bit-clear :
      (j : ℕ)
      → bitmap_test_bit (bitmap_clear_bit m b) j ≡ (if b == j then false else bitmap_test_bit m j)
  unfolding bitmap_clear_bit bitmap_test_bit byte_bit
  bitmap_test_bit-clear j =
      ground (arith, byte_bit-clear (m (b / 8)) (b % 8) (j % 8) (fits (b / 8)))

zero-bit_and : (b : ℕ) → bit_and 0 b ≡ 0
zero-bit_and b = bit_and-bitwise 0 b

pub bitmap_test_bit-zero : (m : Bytes) (j : ℕ) → m (j / 8) ≡ 0 → bitmap_test_bit m j ≡ false
unfolding bitmap_test_bit
bitmap_test_bit-zero m j e = rw (e, zero-bit_and)
