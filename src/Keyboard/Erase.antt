-- ===== src/Keyboard/Erase.antt =====
-- A character that is typed and taken back.
use zer0s.Prelude.{ℕ, ◌+◌, ◌*◌, ◌≡◌, ◌==◌, if◌then◌else◌}
use zer0s.Console.{Console, blank}
use zer0s.Machine.{Machine}
use zer0s.Keyboard.{Keyboard}

-- The cursor is back, and of all cells only the one under it may have changed: it is blank.
pub record IsErased (t u : Console) : Type 0 where
  pub row : u.row ≡ t.row
  pub col : u.col ≡ t.col
  pub cells : (j : ℕ) → u.vga j ≡ (if j == t.row * 80 + t.col then blank else t.vga j)
