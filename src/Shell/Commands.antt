-- ===== src/Shell/Commands.antt =====
-- What the shell makes of a command line.
use mathlib.Core.List.{map}
use zer0s.Prelude.{
  Bool-cases, ℕ, ◌^◌, ◌≤◌, ◌<◌, ◌≡◌, ◌≢◌, ◌↔◌, inl, inr, refl, sym, ap, ◌∙◌, arith, false, some,
  List, [], ◌∷◌, ◌++◌, append-nil, length, ◌==◌, bytes, utf8,
}
use zer0s.Console.{Console, print, print_hex, terminal_writestring, hex_digit}
use zer0s.Console.Hex.{print_hex-PrintsHex, hex_value, AllDigits, IsCanonical}
use zer0s.Strings.Stored.{StoredString}
use zer0s.Strings.Scan.{compare_bytes, compare_bytes-zero, compare_bytes-same, AllBytes}
use zer0s.Machine.{Machine, Run, running}
use zer0s.Shell.{
  string_compare, read_decimal, cmd_hex, run_command, split_line, with_prompt, shell_handle_command,
  show,
}
use zer0s.Shell.Split.{split_line_lem, spaces, NoSpaceFirst}
use zer0s.Shell.Numbers.{decimal_value, AllDecimal, digit_bytes, read_decimal-decimal_value}

string_compare-compare_bytes : (s t : List ℕ) → string_compare s t ≡ compare_bytes s t
unfolding string_compare compare_bytes
string_compare-compare_bytes [] [] = refl
string_compare-compare_bytes [] (d ∷ t) = refl
string_compare-compare_bytes (c ∷ s) [] = refl
string_compare-compare_bytes (c ∷ s) (d ∷ t) = ground (arith, string_compare-compare_bytes s t)

-- The shell's comparison is 0 exactly on equal strings.
pub string_compare_zero :
    (s t : List ℕ) → AllBytes s → AllBytes t → (string_compare s t ≡ 0) ↔ (s ≡ t)
string_compare_zero s t fs ft = (
  λ e. compare_bytes-zero s t fs ft (sym (string_compare-compare_bytes s t) ∙ e),
  λ e. rw e (string_compare-compare_bytes t t ∙ compare_bytes-same t),
)

pub differs : (s t : List ℕ) → AllBytes s → AllBytes t → s ≢ t → (string_compare s t == 0) ≡ false
differs s t fs ft ne = elim (Bool-cases (string_compare s t == 0)) [
  | inr no_match ↦ no_match
  | inl match ↦ absurd (ne ((string_compare_zero s t fs ft).0 (ground arith)))
]

terminal_writestring-append :
    (s u : List ℕ) (t : Console)
    → terminal_writestring (s ++ u) t ≡ terminal_writestring u (terminal_writestring s t)
unfolding terminal_writestring
terminal_writestring-append [] u t = refl
terminal_writestring-append (c ∷ s) u t = terminal_writestring-append s u _

run_command-hex :
    (args : List ℕ) (m : Machine)
    → run_command (bytes "hex") args m ≡ running (show (cmd_hex args) m)
unfolding run_command string_compare bytes utf8
run_command-hex args m = refl

-- The bytes of decimal digits are no spaces.
digit_bytes-NoSpaceFirst : (ds : List ℕ) → NoSpaceFirst (digit_bytes ds)
digit_bytes-NoSpaceFirst [] = tt
digit_bytes-NoSpaceFirst (d ∷ ds) = omega arith

-- What the shell has written for the line `hex` with the digits of `v`.
pub record HexShown (v : ℕ) (m : Machine) (r : Run Machine) : Type 0 where
  pub digits : List ℕ
  pub value : hex_value 0 digits ≡ v
  pub in_range : AllDigits digits
  pub canonical : IsCanonical digits
  pub returned :
      r
      ≡ running (record m {
        console = terminal_writestring (bytes "\nZer0S> ") (
            terminal_writestring (bytes "\n") (
              terminal_writestring
                (b'0' ∷ b'x' ∷ map hex_digit digits)
                (terminal_writestring (bytes "\nHex: ") m.console)));
      })

hex_line_split :
    (input : ℕ → ℕ) (ds : List ℕ)
    → StoredString input 0 (bytes "hex" ++ (spaces 1 ++ digit_bytes ds))
    → length (digit_bytes ds) ≤ 223
    → split_line input ≡ some (bytes "hex", digit_bytes ds)
unfolding bytes utf8
hex_line_split input ds at le =
    split_line_lem input (bytes "hex") 1 (digit_bytes ds) at (omega arith) (omega arith)
      (digit_bytes-NoSpaceFirst ds) (omega arith) (omega arith) le

hex_line_start :
    (input : ℕ → ℕ) (s : List ℕ) → StoredString input 0 (bytes "hex" ++ s) → (input 0 == 0) ≡ false
unfolding StoredString bytes utf8
hex_line_start input s at = ground (arith, at.0)

-- A line that is not empty runs its command.
pub shell_handle_command-split :
    (input : ℕ → ℕ) (cmd args : List ℕ) (m : Machine)
    → (input 0 == 0) ≡ false
    → split_line input ≡ some (cmd, args)
    → shell_handle_command input m ≡ with_prompt (run_command cmd args m)
unfolding shell_handle_command
shell_handle_command-split input cmd args m start split = rw (start, split) refl

hex_shown :
    (args digits : List ℕ) (v : ℕ) (m : Machine)
    → read_decimal 0 args ≡ v
    → print_hex v (terminal_writestring (bytes "\nHex: ") m.console)
      ≡ terminal_writestring
          (b'0' ∷ b'x' ∷ map hex_digit digits)
          (terminal_writestring (bytes "\nHex: ") m.console)
    → with_prompt (running (show (cmd_hex args) m))
      ≡ running (record m {
        console = terminal_writestring (bytes "\nZer0S> ") (
            terminal_writestring (bytes "\n") (
              terminal_writestring
                (b'0' ∷ b'x' ∷ map hex_digit digits)
                (terminal_writestring (bytes "\nHex: ") m.console)));
      })
unfolding with_prompt cmd_hex print
hex_shown args digits v m read shown =
    ap
      (λ (t : Console). running (record m {
        console = terminal_writestring (bytes "\nZer0S> ") (terminal_writestring (bytes "\n") t);
      }))
      (ap (λ (n : ℕ). print_hex n (terminal_writestring (bytes "\nHex: ") m.console)) read ∙ shown)

append-nil_digits : (ds : List ℕ) → digit_bytes ds ++ [] ≡ digit_bytes ds
append-nil_digits ds = append-nil (digit_bytes ds)

-- The line `hex` with decimal digits of a 64-bit number, at most 223 of them, prints that number in
-- canonical hexadecimal and the prompt, and changes nothing else.
pub shell_handle_command-HexShown :
    (input : ℕ → ℕ) (ds : List ℕ) (m : Machine)
    → StoredString input 0 (bytes "hex" ++ (spaces 1 ++ digit_bytes ds))
    → AllDecimal ds
    → length (digit_bytes ds) ≤ 223
    → decimal_value 0 ds < 2 ^ 64
    → HexShown (decimal_value 0 ds) m (shell_handle_command input m)
shell_handle_command-HexShown input ds m at digits le lt =
    let v = decimal_value 0 ds in
    let read : read_decimal 0 (digit_bytes ds) ≡ v =
      ap (read_decimal 0) (sym (append-nil_digits ds))
      ∙ read_decimal-decimal_value ds [] digits tt
      ∙ omega arith in
    let before = terminal_writestring (bytes "\nHex: ") m.console in
    let shown = print_hex-PrintsHex v before lt in
    record {
      digits = shown.digits;
      value = shown.value;
      in_range = shown.in_range;
      canonical = shown.canonical;
      returned =
          shell_handle_command-split input (bytes "hex") (digit_bytes ds) m
            (hex_line_start input (spaces 1 ++ digit_bytes ds) at) (hex_line_split input ds at le)
          ∙ ap with_prompt (run_command-hex (digit_bytes ds) m)
          ∙ hex_shown (digit_bytes ds) shown.digits v m read shown.written;
    }
