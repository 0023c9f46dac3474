-- ===== src/Frames/Count.antt =====
-- The number of set bits of the bitmap, which `used_pages` is meant to be.
use zer0s.Prelude.{ℕ, zero, suc, ◌+◌, ◌≤◌, ◌<◌, ◌≡◌, refl, true, false, arith, ltb, if◌then◌else◌}
use zer0s.Frames.Bitmap.{
  Bytes, AreBytes, bitmap_set_bit, bitmap_clear_bit, bitmap_test_bit, bitmap_test_bit-set,
  bitmap_test_bit-clear,
}

-- How many of the bits below `n` are set.
unfoldable pub count_used : Bytes → ℕ → ℕ
count_used m zero = 0
count_used m (suc n) = (if bitmap_test_bit m n then 1 else 0) + count_used m n

pub count_used-le : (m : Bytes) (n : ℕ) → count_used m n ≤ n
unfolding count_used
count_used-le m zero = omega arith
count_used-le m (suc n) = ground (arith, count_used-le m n)

module _ (m : Bytes) (b : ℕ) (fits : AreBytes m) where
  pub count_used-set :
      (n : ℕ)
      → bitmap_test_bit m b ≡ false
      → count_used (bitmap_set_bit m b) n ≡ count_used m n + (if ltb b n then 1 else 0)
  unfolding count_used
  count_used-set zero h = ground arith
  count_used-set (suc n) h = ground (arith, count_used-set n h, bitmap_test_bit-set m b fits n)

  pub count_used-clear :
      (n : ℕ)
      → bitmap_test_bit m b ≡ true
      → count_used (bitmap_clear_bit m b) n + (if ltb b n then 1 else 0) ≡ count_used m n
  unfolding count_used
  count_used-clear zero h = ground arith
  count_used-clear (suc n) h =
      ground (arith, count_used-clear n h, bitmap_test_bit-clear m b fits n)

-- With every bit below `n` set, the count is `n`.
pub count_used-full :
    (m : Bytes) (n : ℕ) → ((i : ℕ) → i < n → bitmap_test_bit m i ≡ true) → count_used m n ≡ n
unfolding count_used
count_used-full m zero h = refl
count_used-full m (suc n) h =
    ground (arith, h n (omega arith), count_used-full m n (λ i lt. h i (omega arith)))
