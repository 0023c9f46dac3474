-- ===== src/Kernel/Irq.antt =====
-- What `irq_handler` does with the state.
use zer0s.Prelude.{
  newline, ℕ, zero, suc, ◌+◌, ◌%◌, ◌<◌, ◌≡◌, inl, inr, refl, sym, arith, Bool-cases, false, some,
  ◌∷◌, bit_and, leb, ◌==◌, if◌then◌else◌, u8,
}
use zer0s.Interrupts.Idt.{Idt}
use zer0s.Interrupts.Pic.{outb}
use zer0s.Machine.{Machine, Run, running, halted, diverges, Ensures}
use zer0s.Shell.Ports.{Returns, Returns-if, Returns-elim, SamePorts, shell_handle_command-Returns}
use zer0s.Keyboard.{
  Keyboard, keyboard_read_scancode, keyboard_handler, handle_scancode, handle_key, press_enter,
  press_tab, press_escape, end_line, write,
}
use zer0s.Keyboard.Total.{
  press_key-OnlyConsole, press_backspace-OnlyConsole, IsReady, handle_scancode-IsReady,
}
use zer0s.Kernel.{Kernel, acknowledge, end_irq, irq_handler}

-- The keyboard's controller has a byte after `n` reads of its status, within the fuel.
abbrev pub Answers : (status : ℕ → ℕ) → (fuel reads : ℕ) → Type 0
Answers status fuel reads = (n : ℕ) × (n < fuel) × ((bit_and (status (reads + n)) 1 == 0) ≡ false)

abbrev pub IsPolled : (status answer : ℕ → ℕ) → (fuel reads : ℕ) → Type 0
IsPolled status answer fuel reads =
    (out : ℕ × ℕ) × (keyboard_read_scancode status answer fuel reads ≡ some out)

keyboard_read_scancode-IsPolled :
    (status answer : ℕ → ℕ) (n fuel reads : ℕ)
    → n < fuel
    → (bit_and (status (reads + n)) 1 == 0) ≡ false
    → IsPolled status answer fuel reads
unfolding keyboard_read_scancode
keyboard_read_scancode-IsPolled status answer n zero reads lt ready = absurd (omega arith)
keyboard_read_scancode-IsPolled status answer zero (suc fuel) reads lt ready =
    let now : (bit_and (status reads) 1 == 0) ≡ false = ground (arith, ready) in
    ((u8 (answer (reads + 1)), reads + 2), rw (keyboard_read_scancode, now) refl)
keyboard_read_scancode-IsPolled status answer (suc n) (suc fuel) reads lt ready =
    elim (Bool-cases (bit_and (status reads) 1 == 0)) [
      | inr now ↦ ((u8 (answer (reads + 1)), reads + 2), rw (keyboard_read_scancode, now) refl)
      | inl later ↦
          let same : reads + suc n ≡ reads + 1 + n = omega arith in
          let (out, e) =
            keyboard_read_scancode-IsPolled status answer n fuel (reads + 1) (omega arith)
              (rw (sym same) ready) in
          (out, rw (keyboard_read_scancode, later) e)
    ]

keyboard_handler-IsReady :
    (status answer : ℕ → ℕ) (fuel reads : ℕ) (k : Keyboard) (m : Machine)
    → Answers status fuel reads
    → IsReady (k, m)
    → Ensures IsReady (keyboard_handler status answer fuel reads k m)
unfolding keyboard_handler
keyboard_handler-IsReady status answer fuel reads k m (n, lt, ready) is =
    let (out, e) = keyboard_read_scancode-IsPolled status answer n fuel reads lt ready in
    rw (Ensures, e) (handle_scancode-IsReady out.0 k m is)

-- The driver and the shared state are in order.
abbrev pub IsInOrder : Kernel → Type 0
IsInOrder s = IsReady (s.keyboard, s.machine)

end_irq-IsInOrder :
    (int_no : ℕ) (idt : Idt) (r : Run (Keyboard × Machine))
    → Ensures IsReady r
    → Ensures IsInOrder (end_irq int_no idt r)
unfolding end_irq
end_irq-IsInOrder int_no idt (running (k, m)) h = h
end_irq-IsInOrder int_no idt (halted (k, m)) h = h
end_irq-IsInOrder int_no idt diverges h = h

-- Every interrupt of the controllers is handled to the end, and leaves the driver and the shared
-- state in order, provided that, for the keyboard's, its controller has a byte within the fuel.
pub irq_handler-IsInOrder :
    (status answer : ℕ → ℕ) (fuel reads int_no : ℕ) (s : Kernel)
    → (int_no ≡ 33 → Answers status fuel reads)
    → IsInOrder s
    → Ensures IsInOrder (irq_handler status answer fuel reads int_no s)
unfolding irq_handler
irq_handler-IsInOrder status answer fuel reads int_no s answers is =
    elim (Bool-cases (int_no == 33)) [
      | inl key ↦ rw key (
          end_irq-IsInOrder int_no s.idt _ (
            keyboard_handler-IsReady status answer fuel reads s.keyboard s.machine
              (answers (ground arith)) is))
      | inr other ↦ rw other (end_irq-IsInOrder int_no s.idt (running (s.keyboard, s.machine)) is)
    ]

-- No write to the controllers.
abbrev Quiet : Machine → Keyboard × Machine → Type 0
Quiet m s = SamePorts m s.1

end_line-Quiet :
    (m : Machine) (k : Keyboard) (r : Run Machine)
    → Returns (SamePorts m) r
    → Returns (Quiet m) (end_line k r)
unfolding end_line
end_line-Quiet m k (running m') h = h
end_line-Quiet m k (halted m') h = h
end_line-Quiet m k diverges h = h

press_enter-Quiet : (k : Keyboard) (m : Machine) → Returns (Quiet m) (press_enter k m)
unfolding press_enter
press_enter-Quiet k m = end_line-Quiet m _ _ (shell_handle_command-Returns _ (write newline m))

handle_scancode-Quiet :
    (scancode : ℕ) (k : Keyboard) (m : Machine) → Returns (Quiet m) (handle_scancode scancode k m)
unfolding handle_scancode handle_key
handle_scancode-Quiet scancode k m =
    let pressed = (press_key-OnlyConsole (scancode % 128) k m).2 in
    let erased = (press_backspace-OnlyConsole k m).2 in
    let tabbed : (press_tab k m).1.ports ≡ m.ports = unfold press_tab in refl in
    let escaped : (press_escape k m).1.ports ≡ m.ports = unfold press_escape in refl in
    let same : m.ports ≡ m.ports = refl in
    search (Returns-if, press_enter-Quiet k m, pressed, erased, tabbed, escaped, same) depth 30

keyboard_handler-Quiet :
    (status answer : ℕ → ℕ) (fuel reads : ℕ) (k : Keyboard) (m : Machine)
    → Returns (Quiet m) (keyboard_handler status answer fuel reads k m)
unfolding keyboard_handler
keyboard_handler-Quiet status answer fuel reads k m =
    Returns-elim (Quiet m) (keyboard_read_scancode status answer fuel reads) _
      (λ out. handle_scancode-Quiet out.0 k m)

-- The controllers that an interrupt concerns are told its end, and the gates stay.
abbrev pub IsAcknowledged : (int_no : ℕ) → (s s' : Kernel) → Type 0
IsAcknowledged int_no s s' =
    (s'.machine.ports
      ≡ (0x20, 0x20) ∷ (if leb 40 int_no then (0xA0, 0x20) ∷ s.machine.ports else s.machine.ports))
    × (s'.idt ≡ s.idt)

end_irq-IsAcknowledged :
    (int_no : ℕ) (s : Kernel) (r : Run (Keyboard × Machine))
    → Returns (Quiet s.machine) r
    → Returns (IsAcknowledged int_no s) (end_irq int_no s.idt r)
unfolding end_irq acknowledge outb
end_irq-IsAcknowledged int_no s (running (k, m)) h = (rw h refl, refl)
end_irq-IsAcknowledged int_no s (halted (k, m)) h = tt
end_irq-IsAcknowledged int_no s diverges h = tt

-- An interrupt whose handler returns has written to the controllers exactly the end of the
-- interrupt, to the second one first where the vector is 40 or more, and changed no gate.
pub irq_handler-IsAcknowledged :
    (status answer : ℕ → ℕ) (fuel reads int_no : ℕ) (s : Kernel)
    → Returns (IsAcknowledged int_no s) (irq_handler status answer fuel reads int_no s)
unfolding irq_handler
irq_handler-IsAcknowledged status answer fuel reads int_no s = end_irq-IsAcknowledged int_no s _ (
    Returns-if (Quiet s.machine) (int_no == 33) _ _
      (keyboard_handler-Quiet status answer fuel reads s.keyboard s.machine) refl)
