-- ===== src/Console/Bounds.antt =====
-- Where `terminal_writechar` writes and where it leaves the cursor.
use zer0s.Prelude.{
  ℕ, ◌+◌, ◌≤◌, ◌<◌, ◌≡◌, ◌≢◌, ◌⊎◌, ◌*◌, ◌==◌, List, [], ◌∷◌, arith, newline, backspace, ltb,
  if◌then◌else◌,
}
use zer0s.Console.{
  Console, blank, glyph, shift_rows, scroll, put_cell, wrap_column, terminal_writechar,
  terminal_writestring, terminal_clear,
}
use zer0s.Console.Screen.{shift_rows-cell, blank_cells-cell}

-- The cursor is on the screen.
pub record IsOnScreen (t : Console) : Type 0 where
  pub row_in : t.row < 25
  pub col_in : t.col < 80

-- The memory behind the screen is that of before.
abbrev pub SameOutside : Console → Console → Type 0
SameOutside s t = (i : ℕ) → 2000 ≤ i → t.vga i ≡ s.vga i

pub scroll-cell :
    (t : Console) (j : ℕ)
    → (scroll t).vga j
      ≡ (if ltb j 1920 then t.vga (j + 80) else if ltb j 2000 then blank else t.vga j)
unfolding scroll
scroll-cell t j =
    ground (arith, blank_cells-cell (shift_rows t.vga) 80 1920 j, shift_rows-cell t.vga j)

module _ (c : ℕ) (t : Console) (on : IsOnScreen t) where
  -- From a cursor on the screen and away from a newline on the last row, the cursor stays on the
  -- screen, and the memory behind the screen is not written.
  pub terminal_writechar-IsOnScreen :
      (c ≢ newline) ⊎ (t.row < 24)
      → IsOnScreen (terminal_writechar c t) × SameOutside t (terminal_writechar c t)
  unfolding terminal_writechar scroll
  terminal_writechar-IsOnScreen safe = (
    record { row_in = ground arith; col_in = ground arith },
    λ i le. ground (arith, scroll-cell (wrap_column (put_cell c t)) i),
  )

module _ (c : ℕ) (t : Console) (on : IsOnScreen t) (nl : c ≢ newline) (bs : c ≢ backspace) where
  -- From a cursor on the screen before its last cell, a character other than newline and backspace
  -- puts its glyph at the cursor, changes no other cell, and moves the cursor on by one cell.
  pub terminal_writechar_advances :
      t.row * 80 + t.col ≢ 1999
      → let u = terminal_writechar c t in
        (u.row * 80 + u.col ≡ t.row * 80 + t.col + 1)
        × ((j : ℕ) → u.vga j ≡ (if j == t.row * 80 + t.col then glyph c else t.vga j))
  unfolding terminal_writechar scroll
  terminal_writechar_advances h = (ground arith, λ j. ground arith)

  -- In the last cell of the screen, such a character scrolls: every row moves up by one with the
  -- glyph at the end of the moved last row, the last row is blank, and the cursor is at its start.
  pub terminal_writechar_scrolls :
      t.row * 80 + t.col ≡ 1999
      → let u = terminal_writechar c t in
        (u.row ≡ 24)
        × (u.col ≡ 0)
        × ((j : ℕ)
            → u.vga j ≡ (
                if ltb j 1919
                then t.vga (j + 80)
                else if j == 1919
                then glyph c
                else if ltb j 2000
                then blank
                else t.vga j))
  unfolding terminal_writechar scroll
  terminal_writechar_scrolls h =
      (ground arith, ground arith, λ j. ground (arith, scroll-cell (wrap_column (put_cell c t)) j))

-- A newline on the last row leaves the cursor below the screen, and the next character, unless it
-- is a newline or a backspace, is written there, in cell 2000: once the screen has scrolled it is
-- on no cell of it.
pub newline_drops_next :
    (c : ℕ) (t : Console)
    → t.row ≡ 24
    → c ≢ newline
    → c ≢ backspace
    → let u = terminal_writechar c (terminal_writechar newline t) in
      (u.row ≡ 24)
      × (u.col ≡ 1)
      × ((j : ℕ)
          → u.vga j ≡ (
              if ltb j 1920
              then t.vga (j + 80)
              else if ltb j 2000
              then blank
              else if j == 2000
              then glyph c
              else t.vga j))
unfolding terminal_writechar scroll
newline_drops_next c t last nl bs = (
  ground arith,
  ground arith,
  λ j. ground (arith, scroll-cell (put_cell c (terminal_writechar newline t)) j),
)

-- With the cursor on the screen, a backspace right behind a character, not a control character,
-- that left the cursor in its row blanks that cell and puts the cursor back.
pub backspace-terminal_writechar :
    (c : ℕ) (t : Console)
    → IsOnScreen t
    → t.col < 79
    → c ≢ newline
    → c ≢ backspace
    → let u = terminal_writechar backspace (terminal_writechar c t) in
      (u.row ≡ t.row)
      × (u.col ≡ t.col)
      × ((j : ℕ) → u.vga j ≡ (if j == t.row * 80 + t.col then blank else t.vga j))
unfolding terminal_writechar scroll
backspace-terminal_writechar c t on lt nl bs = (ground arith, ground arith, λ j. ground arith)

-- No text moves the cursor out of the 80 columns.
pub terminal_writestring-col :
    (s : List ℕ) (t : Console) → t.col < 80 → (terminal_writestring s t).col < 80
unfolding terminal_writestring terminal_writechar scroll
terminal_writestring-col [] t h = h
terminal_writestring-col (c ∷ s) t h =
    terminal_writestring-col s (terminal_writechar c t) (ground arith)

-- `terminal_clear` blanks the screen, leaves the rest of the memory, and puts the cursor on it.
pub terminal_clear-IsOnScreen :
    (t : Console)
    → IsOnScreen (terminal_clear t)
      × SameOutside t (terminal_clear t)
      × ((j : ℕ) → j < 2000 → (terminal_clear t).vga j ≡ blank)
unfolding terminal_clear
terminal_clear-IsOnScreen t = (
  omega arith,
  λ i le. ground (arith, blank_cells-cell t.vga 2000 0 i),
  λ j lt. ground (arith, blank_cells-cell t.vga 2000 0 j),
)
