-- ===== src/Kernel/Typed.antt =====
-- A line that is typed, key by key in interrupts of the keyboard.
use zer0s.Prelude.{
  newline, ℕ, zero, suc, ◌+◌, ◌≤◌, ◌<◌, ◌≡◌, ◌≢◌, refl, sym, ap, ◌∙◌, arith, true, false, some,
  List, [], ◌∷◌, ◌++◌, length,
}
use zer0s.Console.{terminal_writechar, terminal_writestring}
use zer0s.Interrupts.Pic.{Ports}
use zer0s.Machine.{Machine, Run, running, halted, diverges}
use zer0s.Shell.{run_command, with_prompt}
use zer0s.Shell.Split.{NoSpaces, EndsWord, NoSpaceFirst, spaces}
use zer0s.Keyboard.{Keyboard, end_line, keyboard_read_scancode, keyboard_handler, handle_scancode}
use zer0s.Keyboard.Tables.{ascii_of}
use zer0s.Keyboard.Line.{is_plain, IsPlain, type_char, press_key-plain, handle_scancode-plain}
use zer0s.Keyboard.Delivery.{
  type_word, chars, AllPlain, shown, type_char-IsPlain, type_char-pos, handle_scancodes-plain,
  handle_scancodes-single,
}
use zer0s.Keyboard.CommandLine.{handle_scancodes-IsRun}
use zer0s.Kernel.{Kernel, acknowledge, end_irq, irq_handler}

-- What the ports of the keyboard answer in one interrupt.
pub record Arrival : Type 0 where
  pub status : ℕ → ℕ
  pub answer : ℕ → ℕ
  pub fuel : ℕ
  pub reads : ℕ

abbrev pub Brings : Arrival → ℕ → Type 0
Brings a key =
    (reads' : ℕ) × (keyboard_read_scancode a.status a.answer a.fuel a.reads ≡ some (key, reads'))

abbrev pub AllBring : List Arrival → List ℕ → Type 0
AllBring [] [] = Unit
AllBring [] (key ∷ keys) = ⊥
AllBring (a ∷ arrivals) [] = ⊥
AllBring (a ∷ arrivals) (key ∷ keys) = Brings a key × AllBring arrivals keys

abbrev pub next : Run Kernel → (Kernel → Run Kernel) → Run Kernel
next (running s) f = f s
next (halted s) f = halted s
next diverges f = diverges

next-running : (r : Run Kernel) → next r running ≡ r
next-running (running s) = refl
next-running (halted s) = refl
next-running diverges = refl

-- One interrupt of the keyboard after the other.
unfoldable pub interrupts : List Arrival → Kernel → Run Kernel
interrupts [] s = running s
interrupts (a ∷ arrivals) s =
    next (irq_handler a.status a.answer a.fuel a.reads 33 s) (λ s'. interrupts arrivals s')

unfoldable pub acknowledged : ℕ → Ports → Ports
acknowledged zero ports = ports
acknowledged (suc n) ports = acknowledged n (acknowledge 33 ports)

abbrev typed : ℕ → Kernel → Kernel
typed c s = record s {
  keyboard = type_char c s.keyboard;
  machine = record s.machine {
    console = terminal_writechar c s.machine.console;
    ports = acknowledge 33 s.machine.ports;
  };
}

irq_handler-key :
    (a : Arrival) (key : ℕ) (s : Kernel)
    → Brings a key
    → irq_handler a.status a.answer a.fuel a.reads 33 s
      ≡ end_irq 33 s.idt (handle_scancode key s.keyboard s.machine)
unfolding irq_handler keyboard_handler
irq_handler-key a key s (reads', e) = rw (keyboard_handler, e) refl

irq_handler-typed :
    (a : Arrival) (key : ℕ) (s : Kernel)
    → Brings a key
    → is_plain key ≡ true
    → IsPlain s.keyboard
    → s.keyboard.cmd_pos < 255
    → irq_handler a.status a.answer a.fuel a.reads 33 s ≡ running (typed (ascii_of key false) s)
unfolding end_irq
irq_handler-typed a key s brings plain idle room =
    irq_handler-key a key s brings
    ∙ ap (end_irq 33 s.idt) (
        handle_scancode-plain key s.keyboard s.machine plain
        ∙ ap running (press_key-plain key s.keyboard s.machine plain idle room))

-- The state behind the keys of a line.
abbrev typed_line : List ℕ → Kernel → Kernel
typed_line word s = record s {
  keyboard = type_word word s.keyboard;
  machine = record s.machine {
    console = terminal_writestring word s.machine.console;
    ports = acknowledged (length word) s.machine.ports;
  };
}

interrupts-typed :
    (arrivals : List Arrival) (keys : List ℕ) (last : List Arrival) (s : Kernel)
    → AllBring arrivals keys
    → AllPlain keys
    → IsPlain s.keyboard
    → s.keyboard.cmd_pos + length keys ≤ 255
    → interrupts (arrivals ++ last) s ≡ interrupts last (typed_line (chars keys) s)
unfolding interrupts type_word terminal_writestring acknowledged
interrupts-typed [] [] last s bring all idle room = refl
interrupts-typed [] (key ∷ keys) last s bring all idle room = elim bring [ ]
interrupts-typed (a ∷ arrivals) [] last s bring all idle room = elim bring [ ]
interrupts-typed (a ∷ arrivals) (key ∷ keys) last s (brings, bring) (plain, all) idle room =
    let c = ascii_of key false in
    ap (λ (r : Run Kernel). next r (λ s'. interrupts (arrivals ++ last) s'))
      (irq_handler-typed a key s brings plain idle (omega arith))
    ∙ interrupts-typed arrivals keys last (typed c s) bring all
        (type_char-IsPlain c s.keyboard idle) (omega (arith, type_char-pos c s.keyboard))

-- The line ran as this command, with these arguments, behind the line and a newline on the screen.
pub record IsTyped (word args shown_text : List ℕ) (s : Kernel) (r : Run Kernel) : Type 0 where
  pub line : Keyboard
  pub idle : IsPlain line
  pub returned :
      r
      ≡ end_irq 33 s.idt (
          end_line line (
            with_prompt (
              run_command word args (record s.machine {
                console =
                    terminal_writechar newline (terminal_writestring shown_text s.machine.console);
                ports = acknowledged (length shown_text) s.machine.ports;
              }))))

interrupts-enter :
    (enter : Arrival) (s : Kernel)
    → Brings enter 0x1C
    → interrupts (enter ∷ []) s ≡ end_irq 33 s.idt (handle_scancode 0x1C s.keyboard s.machine)
unfolding interrupts
interrupts-enter enter s brings = next-running _ ∙ irq_handler-key enter 0x1C s brings

-- In interrupts of the keyboard whose controller brings, within the fuel, the keys of a word of at
-- most 31 characters, fewer than 256 spaces and arguments of at most 223 characters, at most 255
-- keys in all, and then the enter key, on an empty line with no shift key, no caps lock and no
-- accent pending: the last interrupt runs the word as a command with these arguments, behind the
-- line and a newline on the screen and one end of interrupt for each key before it.
pub interrupts-IsTyped :
    (arrivals : List Arrival) (enter : Arrival) (keys word : List ℕ) (n : ℕ) (args : List ℕ)
    (s : Kernel)
    → AllBring arrivals keys
    → Brings enter 0x1C
    → AllPlain keys
    → IsPlain s.keyboard
    → s.keyboard.cmd_pos ≡ 0
    → length keys ≤ 255
    → chars keys ≡ word ++ (spaces n ++ args)
    → word ≢ []
    → NoSpaces word
    → EndsWord (spaces n ++ args)
    → NoSpaceFirst args
    → length word ≤ 31
    → n < 256
    → length args ≤ 223
    → IsTyped word args (chars keys) s (interrupts (arrivals ++ (enter ∷ [])) s)
interrupts-IsTyped arrivals enter keys word n args s bring enters all idle empty few reads ne clean
      ends first lw ln la =
    let word' = chars keys in
    let m : Machine = record s.machine { ports = acknowledged (length word') s.machine.ports } in
    let run =
      handle_scancodes-IsRun keys word n args s.keyboard m all idle empty few reads ne clean ends
        first lw ln la in
    let last =
      handle_scancodes-plain keys (0x1C ∷ []) s.keyboard m all idle (omega (arith, empty))
      ∙ handle_scancodes-single 0x1C (type_word word' s.keyboard) (shown word' m) in
    record {
      line = run.line;
      idle = run.idle;
      returned =
          interrupts-typed arrivals keys (enter ∷ []) s bring all idle (omega (arith, empty))
          ∙ interrupts-enter enter (typed_line word' s) enters
          ∙ ap (end_irq 33 s.idt) (sym last ∙ run.returned);
    }
