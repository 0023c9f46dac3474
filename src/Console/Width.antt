-- ===== src/Console/Width.antt =====
-- The types of the console's values in C.
use zer0s.Prelude.{
  ℕ, zero, suc, ◌+◌, ◌*◌, ◌/◌, ◌%◌, ◌^◌, ◌<◌, Bool, false, not, ◌||◌, ◌==◌, inl, inr, Bool-cases,
  List, [], ◌∷◌, bit_or-lt, sign_extend, arith,
}
use zer0s.Console.{
  Console, Item, text, number, glyph, hex_digit, hex_round, hex_rounds, print_hex, print,
  terminal_writechar, terminal_writestring, put_cell, wrap_column, scroll,
}
use zer0s.Console.Bounds.{scroll-cell}

glyph-lt : (c : ℕ) → c < 256 → glyph c < 2 ^ 16
unfolding glyph
glyph-lt c lt = bit_or-lt 16 (sign_extend 16 c) 0x0F00 (ground (arith, lt)) (omega arith)

-- Every cell is an `unsigned short`, and the cursor is in one of the 80 columns.
pub record IsTyped (t : Console) : Type 0 where
  pub cells : (i : ℕ) → t.vga i < 2 ^ 16
  pub column : t.col < 80

-- Every byte of a text is one.
abbrev pub AreBytes : List ℕ → Type 0
AreBytes [] = Unit
AreBytes (c ∷ s) = (c < 256) × AreBytes s

terminal_writechar-IsTyped :
    (c : ℕ) (t : Console) → c < 256 → IsTyped t → IsTyped (terminal_writechar c t)
unfolding terminal_writechar scroll
terminal_writechar-IsTyped c t lt is = record {
  cells = λ i. ground (
    arith,
    is.cells i,
    is.cells (i + 80),
    glyph-lt c lt,
    scroll-cell (wrap_column (put_cell c t)) i,
  );
  column = ground (arith, is.column);
}

terminal_writestring-IsTyped :
    (s : List ℕ) (t : Console) → AreBytes s → IsTyped t → IsTyped (terminal_writestring s t)
unfolding terminal_writestring
terminal_writestring-IsTyped [] t all is = is
terminal_writestring-IsTyped (c ∷ s) t all is =
    terminal_writestring-IsTyped s (terminal_writechar c t) all.1
      (terminal_writechar-IsTyped c t all.0 is)

hex_digit-lt : (n : ℕ) → hex_digit (n % 16) < 256
unfolding hex_digit
hex_digit-lt n = ground arith

hex_round-IsTyped :
    (value j : ℕ) (s : Bool × Console) → IsTyped s.1 → IsTyped (hex_round value j s).1
unfolding hex_round
hex_round-IsTyped value j (started, t) is =
    let digit = hex_digit (value / 2 ^ j % 16) in
    elim (Bool-cases (not (digit == b'0') || started || (j == 0))) [
      | inl printed ↦
          rw printed (terminal_writechar-IsTyped digit t (hex_digit-lt (value / 2 ^ j)) is)
      | inr quiet ↦ rw quiet is
    ]

hex_rounds-IsTyped :
    (value k : ℕ) (s : Bool × Console) → IsTyped s.1 → IsTyped (hex_rounds value k s).1
unfolding hex_rounds
hex_rounds-IsTyped value zero s is = is
hex_rounds-IsTyped value (suc k) s is =
    hex_rounds-IsTyped value k (hex_round value (4 * k) s) (hex_round-IsTyped value (4 * k) s is)

print_hex-IsTyped : (value : ℕ) (t : Console) → IsTyped t → IsTyped (print_hex value t)
unfolding print_hex
print_hex-IsTyped value t is =
    let t' = terminal_writechar b'x' (terminal_writechar b'0' t) in
    let start = terminal_writechar-IsTyped b'0' t (omega arith) is in
    hex_rounds-IsTyped value 16 (false, t')
      (terminal_writechar-IsTyped b'x' (terminal_writechar b'0' t) (omega arith) start)

-- Every text of a message is one of bytes.
abbrev pub AreTexts : List Item → Type 0
AreTexts [] = Unit
AreTexts (text s ∷ items) = AreBytes s × AreTexts items
AreTexts (number v ∷ items) = AreTexts items

-- A message of bytes and numbers leaves every cell of the memory an unsigned short and the cursor
-- in one of the 80 columns, where they were so before.
pub print-IsTyped :
    (items : List Item) (t : Console) → AreTexts items → IsTyped t → IsTyped (print items t)
unfolding print
print-IsTyped [] t all is = is
print-IsTyped (text s ∷ items) t all is =
    print-IsTyped items (terminal_writestring s t) all.1 (terminal_writestring-IsTyped s t all.0 is)
print-IsTyped (number v ∷ items) t all is =
    print-IsTyped items (print_hex v t) all (print_hex-IsTyped v t is)
