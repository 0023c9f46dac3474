-- ===== src/Console/Tests.antt =====
-- The console at concrete screens.
use zer0s.Prelude.{
  ℕ, ◌+◌, ◌<◌, ◌≡◌, refl, arith, List, [], ◌∷◌, ltb, ◌==◌, if◌then◌else◌, newline, bytes, utf8,
}
use zer0s.Console.{
  Console, Item, text, number, print, blank, glyph, terminal_writechar, terminal_writestring,
  terminal_clear, hex_digit, hex_round, hex_rounds, print_hex,
}
use zer0s.Console.Width.{IsTyped, AreTexts, print-IsTyped}
use zer0s.Console.Bounds.{
  IsOnScreen, SameOutside, newline_drops_next, terminal_writestring-col, terminal_clear-IsOnScreen,
}
use zer0s.Console.Hex.{PrintsHex, print_hex-PrintsHex}

abbrev start : Console
start = record { vga = λ i. 0; row = 3; col = 5 }

abbrev bottom : Console
bottom = record { vga = λ i. i; row = 24; col = 7 }

abbrev corner : Console
corner = record { vga = λ i. i; row = 24; col = 79 }

glyph_of_letter : glyph b'A' ≡ 0x0F41
unfolding glyph
glyph_of_letter = refl

-- The byte 0xC3 is a negative `char`.
glyph_of_negative : glyph 0xC3 ≡ 0xFFC3
unfolding glyph
glyph_of_negative = refl

prints_hex : (print_hex 0x1F0 start).vga 248 ≡ glyph b'F'
unfolding print_hex hex_rounds hex_round hex_digit terminal_writechar glyph
prints_hex = refl

newline_drops_next_example :
    let u = terminal_writechar b'Z' (terminal_writechar newline bottom) in
    (u.row ≡ 24)
    × (u.col ≡ 1)
    × ((j : ℕ)
        → u.vga j ≡ (
            if ltb j 1920
            then j + 80
            else if ltb j 2000
            then blank
            else if j == 2000
            then glyph b'Z'
            else j))
newline_drops_next_example = newline_drops_next b'Z' bottom refl (omega arith) (omega arith)

terminal_writestring-col_example : (terminal_writestring (bytes "ok") start).col < 80
terminal_writestring-col_example = terminal_writestring-col (bytes "ok") start (omega arith)

terminal_clear-IsOnScreen_example :
    IsOnScreen (terminal_clear bottom)
    × SameOutside bottom (terminal_clear bottom)
    × ((j : ℕ) → j < 2000 → (terminal_clear bottom).vga j ≡ blank)
terminal_clear-IsOnScreen_example = terminal_clear-IsOnScreen bottom

print_hex-PrintsHex_example : PrintsHex 0xBEEF start
print_hex-PrintsHex_example = print_hex-PrintsHex 0xBEEF start (omega arith)

abbrev message : List Item
message = text (bytes "page ") ∷ number 0xBEEF ∷ text (bytes "\n") ∷ []

message-AreTexts : AreTexts message
unfolding bytes utf8
message-AreTexts = omega arith

print-IsTyped_example : IsTyped (print message start)
print-IsTyped_example =
    print-IsTyped message start message-AreTexts
      (record { cells = λ i. omega arith; column = omega arith })
