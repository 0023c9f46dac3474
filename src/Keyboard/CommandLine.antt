-- ===== src/Keyboard/CommandLine.antt =====
-- A command that is typed, from the keys to the shell's commands.
use mathlib.Core.List.{cons≢nil}
use mathlib.Core.Path.{subst}
use zer0s.Prelude.{
  newline, ℕ, ◌≤◌, ◌<◌, ◌≡◌, ◌≢◌, refl, ap, ◌∙◌, arith, false, List, [], ◌∷◌, ◌++◌, length, ◌==◌,
}
use zer0s.Console.{terminal_writechar, terminal_writestring}
use zer0s.Strings.Stored.{StoredString}
use zer0s.Machine.{Machine, Run}
use zer0s.Shell.Split.{NoSpaces, EndsWord, NoSpaceFirst, spaces, split_line_lem}
use zer0s.Shell.Commands.{shell_handle_command-split}
use zer0s.Shell.{run_command, with_prompt}
use zer0s.Keyboard.{Keyboard, end_line}
use zer0s.Keyboard.Line.{IsPlain}
use zer0s.Keyboard.Delivery.{handle_scancodes, chars, AllPlain, handle_scancodes-IsDelivered}

StoredString-nonempty :
    (input : ℕ → ℕ) (p : ℕ) (s : List ℕ) → s ≢ [] → StoredString input p s → (input p == 0) ≡ false
unfolding StoredString
StoredString-nonempty input p [] ne at = absurd (ne refl)
StoredString-nonempty input p (c ∷ s) ne (here, nonzero, there) = ground (arith, here, nonzero)

append-nonempty : (s t : List ℕ) → s ≢ [] → s ++ t ≢ []
append-nonempty [] t ne e = ne refl
append-nonempty (c ∷ s) t ne e = absurd (cons≢nil e)

-- The command was run with the arguments, and the prompt behind it.
pub record IsRun (word args shown_text : List ℕ) (m : Machine) (r : Run (Keyboard × Machine))
    : Type 0 where
  pub line : Keyboard
  pub idle : IsPlain line
  pub returned :
      r
      ≡ end_line line (
          with_prompt (
            run_command word args (record m {
              console = terminal_writechar newline (terminal_writestring shown_text m.console);
            })))

-- Keys that type a word of at most 31 characters, fewer than 256 spaces and arguments of at most
-- 223 characters, at most 255 keys in all, and the enter key, on an empty line with no shift key,
-- no caps lock and no accent pending, run the word as a command with these arguments, after the
-- line and a newline on the screen; and none of them is pending behind it.
pub handle_scancodes-IsRun :
    (keys word : List ℕ) (n : ℕ) (args : List ℕ) (k : Keyboard) (m : Machine)
    → AllPlain keys
    → IsPlain k
    → k.cmd_pos ≡ 0
    → length keys ≤ 255
    → chars keys ≡ word ++ (spaces n ++ args)
    → word ≢ []
    → NoSpaces word
    → EndsWord (spaces n ++ args)
    → NoSpaceFirst args
    → length word ≤ 31
    → n < 256
    → length args ≤ 223
    → IsRun word args (chars keys) m (handle_scancodes (keys ++ (0x1C ∷ [])) k m)
handle_scancodes-IsRun keys word n args k m all idle empty few reads ne clean ends first lw ln la =
    let given = handle_scancodes-IsDelivered keys k m all idle empty few in
    let at : StoredString given.line.cmd_buffer 0 (word ++ (spaces n ++ args)) =
      subst (λ s. StoredString given.line.cmd_buffer 0 s) reads given.stored in
    record {
      line = given.line;
      idle = given.idle;
      returned =
          given.returned
          ∙ ap (end_line given.line) (
              shell_handle_command-split given.line.cmd_buffer word args _
                (StoredString-nonempty _ 0 _ (append-nonempty word (spaces n ++ args) ne) at)
                (split_line_lem given.line.cmd_buffer word n args at clean ends first lw ln la));
    }
