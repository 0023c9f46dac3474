-- ===== src/Frames/Search.antt =====
-- What `find_free_frame` finds.
use zer0s.Prelude.{
  ℕ, zero, suc, ◌+◌, ◌≤◌, ◌<◌, ◌≡◌, ◌⊎◌, inl, inr, refl, true, false, arith, Bool-cases,
}
use zer0s.Frames.{Frames, no_frame, find_free_from, find_free_frame}
use zer0s.Frames.Bitmap.{Bytes, bitmap_test_bit}

-- `r` is the first clear bit of those from `i` to `n`.
pub record IsFirstFree (m : Bytes) (i n r : ℕ) : Type 0 where
  pub from : i ≤ r
  pub below : r < n
  pub clear : bitmap_test_bit m r ≡ false
  pub first : (j : ℕ) → i ≤ j → j < r → bitmap_test_bit m j ≡ true

-- All bits from `i` to `n` are set, and the search says so.
pub record IsFull (m : Bytes) (i n r : ℕ) : Type 0 where
  pub failed : r ≡ no_frame
  pub full : (j : ℕ) → i ≤ j → j < n → bitmap_test_bit m j ≡ true

find_free_from_lem :
    (m : Bytes) (left i n : ℕ)
    → i + left ≡ n
    → IsFirstFree m i n (find_free_from m left i) ⊎ IsFull m i n (find_free_from m left i)
unfolding find_free_from
find_free_from_lem m zero i n e =
    inr (record { failed = refl; full = λ j ge lt. absurd (omega arith) })
find_free_from_lem m (suc left) i n e = elim (Bool-cases (bitmap_test_bit m i)) [
  | inl used ↦ rw used (elim (find_free_from_lem m left (i + 1) n (omega arith)) [
    | inl r ↦ inl (record {
      from = omega (arith, r.from);
      below = r.below;
      clear = r.clear;
      first = λ j ge lt. grind (arith, r.first);
    })
    | inr r ↦ inr (record { failed = r.failed; full = λ j ge lt. grind (arith, r.full) })
  ])
  | inr free ↦ rw free (
      inl (record {
        from = omega arith;
        below = omega arith;
        clear = free;
        first = λ j ge lt. absurd (omega arith);
      }))
]

-- `find_free_frame` finds the lowest clear bit, or all bits are set and it returns `-1`.
pub find_free_frame_lem :
    (f : Frames)
    → IsFirstFree f.bitmap 0 f.total_pages (find_free_frame f)
      ⊎ IsFull f.bitmap 0 f.total_pages (find_free_frame f)
unfolding find_free_frame
find_free_frame_lem f = find_free_from_lem f.bitmap f.total_pages 0 f.total_pages (omega arith)
