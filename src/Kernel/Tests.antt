-- ===== src/Kernel/Tests.antt =====
-- Runs of the kernel.
use mathlib.Core.Path.{subst}
use zer0s.Prelude.{
  ℕ, ◌<◌, ◌≡◌, ◌≢◌, refl, ap, sym, ◌∙◌, arith, false, true, List, [], ◌∷◌, ◌++◌, leb, if◌then◌else◌,
  bytes, utf8,
}
use zer0s.Machine.{running}
use zer0s.Machine.Samples.{sample}
use zer0s.Shell.Ports.{Returns}
use zer0s.Keyboard.{Keyboard, keyboard_read_scancode, keyboard_handler, write}
use zer0s.Keyboard.Tables.{ascii_of}
use zer0s.Keyboard.Line.{IsPlain, type_char, press_key-plain, handle_scancode-plain, is_plain}
use zer0s.Kernel.{Kernel, acknowledge, end_irq, irq_handler, kernel_main}
use zer0s.Kernel.Samples.{handlers, cold, cold-IsCold}
use zer0s.Kernel.Boot.{IsBooted, kernel_main-IsBooted}
use zer0s.Kernel.Irq.{Answers, IsAcknowledged, irq_handler-IsAcknowledged}
use zer0s.Keyboard.Delivery.{chars, AllPlain}
use zer0s.Kernel.Typed.{Arrival, Brings, AllBring, interrupts, IsTyped, interrupts-IsTyped}
use zer0s.Kernel.Reachable.{Step, interrupt, Reach, booted, more, IsSafe, Reach-IsSafe, Reach-no_x}

kernel_main-IsBooted_example : IsBooted handlers cold (kernel_main handlers 0x36D76289 0 cold)
kernel_main-IsBooted_example = kernel_main-IsBooted handlers 0x36D76289 0 cold cold-IsCold

-- The ports are ready at the third poll, with a scan code that types a letter.
abbrev status : ℕ → ℕ
status n = if leb 2 n then 0x1D else 0x1C

abbrev letter : ℕ → ℕ
letter n = 0x23

status-Answers : Answers status 5 0
status-Answers = (2, omega arith, refl)

abbrev ready : Kernel
ready = record cold { machine = sample }

irq_handler-IsAcknowledged_example :
    Returns (IsAcknowledged 40 ready) (irq_handler status letter 5 0 40 ready)
irq_handler-IsAcknowledged_example = irq_handler-IsAcknowledged status letter 5 0 40 ready

abbrev after_boot : Kernel
after_boot = (kernel_main-IsBooted handlers 0x36D76289 0 cold cold-IsCold).after

abbrev told : ℕ → Kernel → Kernel
told int_no s = record s {
  machine = record s.machine { ports = acknowledge int_no s.machine.ports };
}

-- The timer's interrupt.
tick : (s : Kernel) → Step s (told 32 s)
unfolding irq_handler end_irq
tick s = interrupt status letter 5 0 32 (λ e. absurd (omega arith)) refl

after_tick : Reach handlers 0x36D76289 0 cold (told 32 after_boot)
after_tick =
    more (booted (kernel_main-IsBooted handlers 0x36D76289 0 cold cold-IsCold).returned)
      (tick after_boot)

Reach-IsSafe_example : IsSafe handlers (told 32 after_boot)
Reach-IsSafe_example = Reach-IsSafe handlers 0x36D76289 0 cold cold-IsCold after_tick

letter_is_plain : is_plain 0x23 ≡ true
unfolding ascii_of zer0s.Keyboard.is_accent bytes utf8
letter_is_plain = refl

abbrev with_letter : Kernel → Kernel
with_letter s = record {
  idt = s.idt;
  keyboard = type_char (ascii_of 0x23 false) s.keyboard;
  machine = record (write (ascii_of 0x23 false) s.machine) {
    ports = acknowledge 33 s.machine.ports;
  };
}

-- The interrupt of a key.
press : (s : Kernel) → IsPlain s.keyboard → s.keyboard.cmd_pos < 255 → Step s (with_letter s)
unfolding irq_handler end_irq keyboard_handler keyboard_read_scancode
press s idle room =
    interrupt status letter 5 0 33 (λ e. status-Answers)
      (ap (end_irq 33 s.idt) (
        handle_scancode-plain 0x23 s.keyboard s.machine letter_is_plain
        ∙ ap running (press_key-plain 0x23 s.keyboard s.machine letter_is_plain idle room)))

booted_keyboard : after_boot.keyboard ≡ cold.keyboard
booted_keyboard = (kernel_main-IsBooted handlers 0x36D76289 0 cold cold-IsCold).keyboard

after_boot-IsPlain : IsPlain after_boot.keyboard
after_boot-IsPlain =
    subst IsPlain (sym booted_keyboard) (record { shift = refl; caps = refl; accent = refl })

after_boot_empty : after_boot.keyboard.cmd_pos ≡ 0
after_boot_empty = ap (λ (k : Keyboard). k.cmd_pos) booted_keyboard

after_press : Reach handlers 0x36D76289 0 cold (with_letter (told 32 after_boot))
after_press =
    more after_tick
      (press (told 32 after_boot) after_boot-IsPlain (omega (arith, after_boot_empty)))

one_letter : 0 < (with_letter (told 32 after_boot)).keyboard.cmd_pos
unfolding type_char
one_letter = omega arith

Reach-no_x_example :
    ((with_letter (told 32 after_boot)).keyboard.cmd_buffer 0 ≢ b'x')
    × ((with_letter (told 32 after_boot)).keyboard.cmd_buffer 0 ≢ b'z')
Reach-no_x_example = Reach-no_x handlers 0x36D76289 0 cold 0 cold-IsCold after_press one_letter

-- The keys of `echo hi`.
abbrev echo_hi : List ℕ
echo_hi = 0x12 ∷ 0x2E ∷ 0x23 ∷ 0x18 ∷ 0x39 ∷ 0x23 ∷ 0x17 ∷ []

echo_hi-chars : chars echo_hi ≡ bytes "echo" ++ ((b' ' ∷ []) ++ bytes "hi")
unfolding ascii_of bytes utf8
echo_hi-chars = refl

echo_hi-AllPlain : AllPlain echo_hi
unfolding ascii_of zer0s.Keyboard.is_accent bytes utf8
echo_hi-AllPlain = (refl, (refl, (refl, (refl, (refl, (refl, (refl, tt)))))))

-- The ports have the key at the first poll.
abbrev arrival : ℕ → Arrival
arrival key = record { status = λ n. 0x1D; answer = λ n. key; fuel = 1; reads = 0 }

abbrev arrivals : List ℕ → List Arrival
arrivals [] = []
arrivals (key ∷ keys) = arrival key ∷ arrivals keys

arrivals-AllBring : AllBring (arrivals echo_hi) echo_hi
unfolding keyboard_read_scancode
arrivals-AllBring =
    ((2, refl), ((2, refl), ((2, refl), ((2, refl), ((2, refl), ((2, refl), ((2, refl), tt)))))))

enter-Brings : Brings (arrival 0x1C) 0x1C
unfolding keyboard_read_scancode
enter-Brings = (2, refl)

interrupts-IsTyped_example :
    IsTyped
      (bytes "echo")
      (bytes "hi")
      (chars echo_hi)
      ready
      (interrupts (arrivals echo_hi ++ (arrival 0x1C ∷ [])) ready)
unfolding ascii_of bytes utf8
interrupts-IsTyped_example =
    interrupts-IsTyped (arrivals echo_hi) (arrival 0x1C) echo_hi (bytes "echo") 1 (bytes "hi") ready
      arrivals-AllBring enter-Brings echo_hi-AllPlain
      (record { shift = refl; caps = refl; accent = refl }) refl (omega arith) echo_hi-chars
      (λ e. ground arith) (omega arith) refl (omega arith) (omega arith) (omega arith) (omega arith)
