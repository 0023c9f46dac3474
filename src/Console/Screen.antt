-- ===== src/Console/Screen.antt =====
-- What the two loops of the scroll and the clearing loop do to the memory, cell by cell.
use Prim.Native.Nat.{◌≤◌}
use mathlib.Core.Bool.{◌&&◌}
use native.Mathlib.Nat.{le_refl}
use zer0s.Prelude.{ℕ, ◌+◌, ◌≡◌, refl, arith, ltb, leb, if◌then◌else◌, store, for_rounds_inv}
use zer0s.Console.{blank, vga_width, shift_rows, blank_cells}

module _ (m : ℕ → ℕ) where
  pub shift_rows-cell : (j : ℕ) → shift_rows m j ≡ (if ltb j 1920 then m (j + 80) else m j)
  unfolding shift_rows
  shift_rows-cell =
      for_rounds_inv (λ i s. store s i (s (i + vga_width)))
        (λ i (s : ℕ → ℕ). (j : ℕ) → s j ≡ (if ltb j i then m (j + 80) else m j))
        (λ i s h j. ground (arith, h j, h (i + 80))) 1920 0 1920 refl m (λ j. ground arith)

  pub blank_cells-cell :
      (n first j : ℕ)
      → blank_cells n first m j ≡ (if leb first j && ltb j (first + n) then blank else m j)
  unfolding blank_cells
  blank_cells-cell n first =
      (for_rounds_inv (λ i s. store s i blank)
        (λ i (s : ℕ → ℕ).
          (first ≤ i) × ((j : ℕ) → s j ≡ (if leb first j && ltb j i then blank else m j)))
        (λ i s (le, h). (omega arith, λ j. ground (arith, h j))) n first (first + n) refl m
        (le_refl _, λ j. ground arith)).1
