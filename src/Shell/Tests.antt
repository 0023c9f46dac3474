-- ===== src/Shell/Tests.antt =====
-- Runs of the shell.
use zer0s.Prelude.{ℕ, ◌≡◌, refl, arith, some, List, [], ◌∷◌, ◌++◌, get_or, bytes, utf8}
use zer0s.Strings.Stored.{StoredString}
use zer0s.Machine.{Ensures}
use zer0s.Machine.Sound.{IsSound}
use zer0s.Machine.Samples.{sample, sample-IsSound}
use zer0s.Shell.{read_decimal, read_word, skip_spaces, read_args, split_line, shell_handle_command}
use zer0s.Shell.Numbers.{decimal_value, digit_bytes}
use zer0s.Shell.Commands.{HexShown, shell_handle_command-HexShown}
use zer0s.Shell.Total.{shell_handle_command-IsSound}

-- The string in a buffer that is cleared behind it.
abbrev buffer : List ℕ → ℕ → ℕ
buffer s i = get_or s i 0

heap_line_stored : buffer (bytes "heap") 4 ≡ 0
unfolding bytes utf8
heap_line_stored = refl

shell_handle_command-IsSound_example :
    Ensures IsSound (shell_handle_command (buffer (bytes "heap")) sample)
shell_handle_command-IsSound_example =
    shell_handle_command-IsSound (buffer (bytes "heap")) 4 sample (omega arith) heap_line_stored
      sample-IsSound

hex_line_stored :
    StoredString
      (buffer (bytes "hex 255"))
      0
      (bytes "hex" ++ ((b' ' ∷ []) ++ digit_bytes (2 ∷ 5 ∷ 5 ∷ [])))
unfolding StoredString bytes utf8
hex_line_stored = omega arith

shell_handle_command-HexShown_example :
    HexShown
      (decimal_value 0 (2 ∷ 5 ∷ 5 ∷ []))
      sample
      (shell_handle_command (buffer (bytes "hex 255")) sample)
unfolding decimal_value
shell_handle_command-HexShown_example =
    shell_handle_command-HexShown (buffer (bytes "hex 255")) (2 ∷ 5 ∷ 5 ∷ []) sample hex_line_stored
      (omega arith) (omega arith) (omega arith)

split_echo : split_line (buffer (bytes "echo  a b")) ≡ some (bytes "echo", bytes "a b")
unfolding split_line read_word skip_spaces read_args bytes utf8
split_echo = refl

-- 2 ^ 64 + 7, which is read as 7.
abbrev wrapping : List ℕ
wrapping = 1 ∷ 8 ∷ 4 ∷ 4 ∷ 6 ∷ 7 ∷ 4 ∷ 4 ∷ 0 ∷ 7 ∷ 3 ∷ 7 ∷ 0 ∷ 9 ∷ 5 ∷ 5 ∷ 1 ∷ 6 ∷ 2 ∷ 3 ∷ []

wraps_to_seven : read_decimal 0 (digit_bytes wrapping ++ bytes "x") ≡ 7
unfolding read_decimal bytes utf8
wraps_to_seven = refl
