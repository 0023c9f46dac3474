-- ===== src/Console.antt =====
-- The VGA text console of kernel/kernel_main.c.
pub mod Screen
pub mod Bounds
pub mod Width
pub mod Hex
mod Tests
use zer0s.Prelude.{
  ℕ, zero, suc, ◌+◌, ◌-◌, ◌*◌, ◌/◌, ◌%◌, ◌^◌, Bool, true, false, ◌||◌, not, List, [], ◌∷◌, bit_or,
  ltb, leb, ◌==◌, if◌then◌else◌, store, for_rounds, sign_extend, newline, backspace,
}

abbrev pub vga_width : ℕ
vga_width = 80

abbrev pub vga_height : ℕ
vga_height = 25

-- `VGA_MEMORY` and the statics `row` and `col`. The memory is a function of the cell index, since
-- the code may index past the 80 by 25 cells of the screen.
pub record Console : Type 0 where
  pub vga : ℕ → ℕ
  pub row : ℕ
  pub col : ℕ

-- `(unsigned short)c | (0x0F << 8)`
unfoldable pub glyph : ℕ → ℕ
glyph c = bit_or (sign_extend 16 c) 0x0F00

-- A blank cell: `(unsigned short)' ' | (0x0F << 8)`.
abbrev pub blank : ℕ
blank = bit_or b' ' 0x0F00

-- The two loops of the scroll: rows move up by one, and the last row is blanked.
unfoldable pub shift_rows : (ℕ → ℕ) → (ℕ → ℕ)
shift_rows = for_rounds (λ i m. store m i (m (i + vga_width))) ((vga_height - 1) * vga_width) 0

unfoldable pub blank_cells : ℕ → ℕ → (ℕ → ℕ) → (ℕ → ℕ)
blank_cells n first = for_rounds (λ i m. store m i blank) n first

unfoldable pub scroll : Console → Console
scroll t = record {
  vga = blank_cells vga_width ((vga_height - 1) * vga_width) (shift_rows t.vga);
  row = vga_height - 1;
  col = t.col;
}

-- The part of `terminal_writechar` behind the two control characters: the cell is written, the
-- cursor moves on and wraps, and the screen scrolls.
unfoldable pub put_cell : ℕ → Console → Console
put_cell c t = record {
  vga = store t.vga (t.row * vga_width + t.col) (glyph c);
  row = t.row;
  col = t.col + 1;
}

unfoldable pub wrap_column : Console → Console
wrap_column t = if leb vga_width t.col then record t { row = t.row + 1; col = 0 } else t

unfoldable pub scroll_if_full : Console → Console
scroll_if_full t = if leb vga_height t.row then scroll t else t

unfoldable pub erase_cell : Console → Console
erase_cell t =
    if ltb 0 t.col
    then record t { vga = store t.vga (t.row * vga_width + (t.col - 1)) blank; col = t.col - 1 }
    else t

unfoldable pub terminal_writechar : ℕ → Console → Console
unfolding put_cell wrap_column scroll_if_full erase_cell
terminal_writechar c t =
    if c == newline
    then record t { row = t.row + 1; col = 0 }
    else if c == backspace
    then erase_cell t
    else scroll_if_full (wrap_column (put_cell c t))

-- The list is the text up to its NUL.
unfoldable pub terminal_writestring : List ℕ → Console → Console
terminal_writestring [] t = t
terminal_writestring (c ∷ s) t = terminal_writestring s (terminal_writechar c t)

unfoldable pub terminal_clear : Console → Console
unfolding blank_cells
terminal_clear t = record { vga = blank_cells (vga_width * vga_height) 0 t.vga; row = 0; col = 0 }

-- `hex[n]`
unfoldable pub hex_digit : ℕ → ℕ
hex_digit n = if ltb n 10 then b'0' + n else b'A' + (n - 10)

-- One round of the loop of `print_hex`, at shift `j`; the flag is `started`.
unfoldable pub hex_round : ℕ → ℕ → Bool × Console → Bool × Console
unfolding hex_digit
hex_round value j (started, t) =
    let digit = hex_digit (value / 2 ^ j % 16) in
    if not (digit == b'0') || started || (j == 0)
    then (true, terminal_writechar digit t)
    else (started, t)

-- The loop from shift `4 * k - 4` down to 0.
unfoldable pub hex_rounds : ℕ → ℕ → Bool × Console → Bool × Console
hex_rounds value zero s = s
hex_rounds value (suc k) s = hex_rounds value k (hex_round value (4 * k) s)

unfoldable pub print_hex : ℕ → Console → Console
unfolding hex_rounds
print_hex value t =
    (hex_rounds value 16 (false, terminal_writechar b'x' (terminal_writechar b'0' t))).1

-- What the messages of the other files are made of, in the order in which they are printed.
pub data Item : Type 0 where
  text : List ℕ → Item
  number : ℕ → Item

unfoldable pub print : List Item → Console → Console
print [] t = t
print (text s ∷ items) t = print items (terminal_writestring s t)
print (number v ∷ items) t = print items (print_hex v t)
