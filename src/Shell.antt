-- ===== src/Shell.antt =====
-- The shell of kernel/arch/x86_64/shell.c. A C string is the list of its bytes up to its NUL.
pub mod Messages
pub mod Split
pub mod Numbers
pub mod Commands
pub mod Ports
pub mod Total
pub mod Unknown
mod Tests
use zer0s.Prelude.{
  ℕ, zero, suc, ◌+◌, ◌-◌, ◌*◌, ◌<◌, Bool, true, false, ◌&&◌, not, Option, none, some, List, [], ◌∷◌,
  ltb, leb, ◌==◌, if◌then◌else◌, u64, bytes,
}
use zer0s.Console.{Console, Item, text, number, print, terminal_writestring, terminal_clear}
use zer0s.Frames.{memory_status}
use zer0s.Heap.{kmalloc, heap_status}
use zer0s.Process.Report.{process_list}
use zer0s.Interrupts.Pic.{outb}
use zer0s.Strings.{byte_difference}
use zer0s.Shell.Messages.{cmd_help, cmd_info, cmd_status, cmd_about}
use zer0s.Machine.{Machine, Run, running, halted, diverges}

unfoldable pub string_compare : List ℕ → List ℕ → ℕ
string_compare [] [] = 0
string_compare [] (d ∷ t) = byte_difference 0 d
string_compare (c ∷ s) [] = byte_difference c 0
string_compare (c ∷ s) (d ∷ t) =
    let rest = string_compare s t in if c == d then rest else byte_difference c d

unfoldable pub cmd_echo : List ℕ → List Item
cmd_echo args = text (bytes "\n") ∷ text args ∷ text (bytes "\n") ∷ []

-- The loop that `cmd_hex` and `cmd_kmalloc` run over the digits at the start of their argument.
unfoldable pub read_decimal : ℕ → List ℕ → ℕ
read_decimal num [] = num
read_decimal num (c ∷ s) =
    let rest = read_decimal (u64 (num * 10 + (c - b'0'))) s in
    if leb b'0' c && leb c b'9' then rest else num

unfoldable pub cmd_hex : List ℕ → List Item
unfolding read_decimal
cmd_hex args = text (bytes "\nHex: ") ∷ number (read_decimal 0 args) ∷ text (bytes "\n") ∷ []

unfoldable pub cmd_reboot : Machine → Run Machine
cmd_reboot m = halted (record m {
  console = terminal_writestring (bytes "\nRebooting system...\n") m.console;
  interrupts = false;
  ports = outb 0x64 0xFE m.ports;
})

-- What a command prints, and nothing else of it, reaches the machine.
abbrev pub show : List Item → Machine → Machine
show items m = record m { console = print items m.console }

unfoldable pub cmd_kmalloc : List ℕ → Machine → Run Machine
unfolding read_decimal
cmd_kmalloc args m =
    let size = read_decimal 0 args in
    if ltb 0 size
    then elim (kmalloc size m.heap m.console) [
      | none ↦ diverges
      | some (ptr, heap, console) ↦ running (
          show
            (text (bytes "\nAllocated ")
              ∷ number size
              ∷ text (bytes " bytes at ")
              ∷ number ptr
              ∷ text (bytes "\n")
              ∷ [])
            (record m { heap = heap; console = console }))
    ]
    else running (show (text (bytes "\nUsage: kmalloc <size>\n") ∷ []) m)

unfoldable pub cmd_heap : Machine → Run Machine
cmd_heap m = elim (heap_status m.heap m.console) [
  | none ↦ diverges
  | some console ↦ running (record m { console = console })
]

-- The first loop of `shell_handle_command`, from index `i` on with `left` rounds to go: the word,
-- and the index behind it.
unfoldable pub read_word : (left i : ℕ) → (ℕ → ℕ) → List ℕ × ℕ
read_word zero i input = ([], i)
read_word (suc left) i input =
    let (word, j) = read_word left (i + 1) input in
    if not (input i == 0) && not (input i == b' ') then (input i ∷ word, j) else ([], i)

-- `while (input[i] == ' ') i++;`. `none` is a run of spaces to the end of the buffer.
unfoldable pub skip_spaces : (fuel i : ℕ) → (ℕ → ℕ) → Option ℕ
skip_spaces zero i input = none
skip_spaces (suc fuel) i input =
    let rest = skip_spaces fuel (i + 1) input in if input i == b' ' then rest else some i

-- The loop that copies the arguments.
unfoldable pub read_args : (left i : ℕ) → (ℕ → ℕ) → List ℕ
read_args zero i input = []
read_args (suc left) i input =
    let rest = read_args left (i + 1) input in if not (input i == 0) then input i ∷ rest else []

-- The command and the arguments of the line in the 256 bytes of the command buffer.
unfoldable pub split_line : (ℕ → ℕ) → Option (List ℕ × List ℕ)
split_line input =
    let (cmd, i) = read_word 31 0 input in
    elim (skip_spaces 256 i input) [ none ↦ none | some j ↦ some (cmd, read_args 223 j input) ]

-- The chain of comparisons.
unfoldable pub run_command : (cmd args : List ℕ) → Machine → Run Machine
run_command cmd args m =
    if string_compare cmd (bytes "help") == 0
    then running (show cmd_help m)
    else if string_compare cmd (bytes "mem") == 0
    then running (record m { console = memory_status m.frames m.console })
    else if string_compare cmd (bytes "procs") == 0
    then running (record m { console = process_list m.processes m.console })
    else if string_compare cmd (bytes "heap") == 0
    then cmd_heap m
    else if string_compare cmd (bytes "kmalloc") == 0
    then cmd_kmalloc args m
    else if string_compare cmd (bytes "clear") == 0
    then running (record m { console = terminal_clear m.console })
    else if string_compare cmd (bytes "info") == 0
    then running (show cmd_info m)
    else if string_compare cmd (bytes "echo") == 0
    then running (show (cmd_echo args) m)
    else if string_compare cmd (bytes "status") == 0
    then running (show cmd_status m)
    else if string_compare cmd (bytes "hex") == 0
    then running (show (cmd_hex args) m)
    else if string_compare cmd (bytes "about") == 0
    then running (show cmd_about m)
    else if string_compare cmd (bytes "reboot") == 0
    then cmd_reboot m
    else if not (string_compare cmd [] == 0)
    then running (
        show
          (text (bytes "\nUnknown command: ")
            ∷ text cmd
            ∷ text (bytes "\nType 'help' for commands\n")
            ∷ [])
          m)
    else running m

-- The prompt that ends a command that returns.
unfoldable pub with_prompt : Run Machine → Run Machine
with_prompt (running m) = running (show (text (bytes "\nZer0S> ") ∷ []) m)
with_prompt (halted m) = halted m
with_prompt diverges = diverges

unfoldable pub shell_handle_command : (ℕ → ℕ) → Machine → Run Machine
shell_handle_command input m = if input 0 == 0 then running m else elim (split_line input) [
  | none ↦ diverges
  | some (cmd, args) ↦ with_prompt (run_command cmd args m)
]

unfoldable pub shell_init : Console → Console
shell_init t =
    print
      (text (bytes "\n========================================\n")
        ∷ text (bytes "  Zer0S Shell v1.0\n")
        ∷ text (bytes "========================================\n")
        ∷ text (bytes "Type 'help' for available commands\n\n")
        ∷ text (bytes "Zer0S> ")
        ∷ [])
      t
