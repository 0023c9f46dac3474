-- ===== src/Asm/Handled.antt =====
-- The entries of isr.asm with the handlers of kernel/arch/x86_64/isr.c behind them.
use zer0s.Prelude.{ℕ, ◌^◌, ◌≤◌, ◌<◌, ◌≡◌, sym, ap, ◌∙◌, some, List, arith}
use zer0s.Console.{Console, print}
use zer0s.Interrupts.Isr.{
  Registers, Outcome, returned, halted, out_of_bounds, exception_messages, get_elem?,
  exception_report, isr_handler, isr_handler_lem,
}
use zer0s.Machine.{Run, running, halted, diverges, Ensures}
use zer0s.Kernel.{Kernel, irq_handler}
use zer0s.Kernel.Irq.{Answers, IsInOrder, irq_handler-IsInOrder}
use zer0s.Asm.{Cpu, exec, rdi}
use zer0s.Asm.Stack.{IsBalanced}
use zer0s.Asm.Entry.{interrupt, irq, isr, exception, read_registers}
use zer0s.Asm.Transparent.{IsTransparent, KeepsCaller}
use zer0s.Asm.Served.{reported, reported-int_no, irq-IsServed, isr-IsGiven}

-- `leftover` is what a compiled handler leaves in the processor. A handler that does not come back
-- runs nothing after it.
module _ (leftover : Cpu → Cpu) where
  abbrev pub compiled_irq : (Registers → Kernel → Run Kernel) → Cpu → Run Kernel → Cpu × Run Kernel
  compiled_irq handler c (running s) =
      (leftover c, handler (read_registers c.memory (c.regs rdi)) s)
  compiled_irq handler c (halted s) = (leftover c, halted s)
  compiled_irq handler c diverges = (leftover c, diverges)

  abbrev pub compiled_isr : (Registers → Console → Outcome) → Cpu → Outcome → Cpu × Outcome
  compiled_isr handler c (returned t) =
      (leftover c, handler (read_registers c.memory (c.regs rdi)) t)
  compiled_isr handler c (halted t) = (leftover c, halted t)
  compiled_isr handler c out_of_bounds = (leftover c, out_of_bounds)

  KeepsCaller-irq :
      (handler : Registers → Kernel → Run Kernel)
      → ((c : Cpu) → IsBalanced c (leftover c))
      → KeepsCaller (compiled_irq handler)
  KeepsCaller-irq handler keeps c (running s) = keeps c
  KeepsCaller-irq handler keeps c (halted s) = keeps c
  KeepsCaller-irq handler keeps c diverges = keeps c

  KeepsCaller-isr :
      (handler : Registers → Console → Outcome)
      → ((c : Cpu) → IsBalanced c (leftover c))
      → KeepsCaller (compiled_isr handler)
  KeepsCaller-isr handler keeps c (returned t) = keeps c
  KeepsCaller-isr handler keeps c (halted t) = keeps c
  KeepsCaller-isr handler keeps c out_of_bounds = keeps c

  abbrev pub irq_handled :
      (status answer : ℕ → ℕ) → (fuel reads : ℕ) → Cpu → Run Kernel → Cpu × Run Kernel
  irq_handled status answer fuel reads =
      compiled_irq (λ regs s. irq_handler status answer fuel reads regs.int_no s)

  -- An interrupt line's entry in a state in order, on a stack with room, with `irq_handler` as
  -- compiled code that keeps its caller's stack: it runs on the vector, to its end, and leaves the
  -- state in order, provided that for the keyboard's vector its controller has a byte within the
  -- fuel. Where it returns, the interrupted code goes on as it was, with all its registers.
  pub irq-irq_handler :
      (status answer : ℕ → ℕ) (fuel reads vector top : ℕ) (c : Cpu) (s : Kernel)
      → ((c : Cpu) → IsBalanced c (leftover c))
      → 176 ≤ top
      → top < 2 ^ 64
      → (vector ≡ 33 → Answers status fuel reads)
      → IsInOrder s
      → let out =
          exec (irq_handled status answer fuel reads) (irq vector) (interrupt top c) (running s) in
        IsTransparent c out.0
        × (out.1 ≡ irq_handler status answer fuel reads vector s)
        × Ensures IsInOrder out.1
  irq-irq_handler status answer fuel reads vector top c s keeps room lt answers is =
      let handler =
        λ (regs : Registers) (s : Kernel). irq_handler status answer fuel reads regs.int_no s in
      let h =
        irq-IsServed (compiled_irq handler) vector top c (running s) (KeepsCaller-irq handler keeps)
          room lt in
      let e = h.world ∙ ap (λ (regs : Registers). handler regs s) h.pointed in
      (h.transparent, e, rw e (irq_handler-IsInOrder status answer fuel reads vector s answers is))

  -- An exception, by the processor and the file's entry, on a stack with room, with `isr_handler` as
  -- compiled code that keeps its caller's stack: the kernel halts with the report of that exception.
  -- The error code in it is the processor's where that pushes one and else 0, and the registers are
  -- those of the code that was interrupted; but for 21, 29 and 30, whose error code the file does
  -- not expect: there the error code is 0, the processor's one stands in the place of the address,
  -- and each other field holds what belongs in the one before.
  pub isr-isr_handler :
      (n err_code top : ℕ) (c : Cpu) (t : Console)
      → ((c : Cpu) → IsBalanced c (leftover c))
      → 184 ≤ top
      → top < 2 ^ 64
      → n < 32
      → (message : List ℕ) × (get_elem? exception_messages n ≡ some message)
        × ((exec (compiled_isr isr_handler) (isr n) (exception n err_code top c) (returned t)).1
            ≡ halted (print (exception_report (reported n err_code c) message) t))
  isr-isr_handler n err_code top c t keeps room lt small =
      let h =
        isr-IsGiven (compiled_isr isr_handler) n err_code top c (returned t)
          (KeepsCaller-isr isr_handler keeps) room lt in
      let e = h.world ∙ ap (λ (regs : Registers). isr_handler regs t) h.pointed in
      let number : (reported n err_code c).int_no ≡ n = reported-int_no n err_code c in
      let (message, at, stop) =
        (isr_handler_lem (reported n err_code c) t).0 (omega (arith, number, small)) in
      (message, ap (get_elem? exception_messages) (sym number) ∙ at, e ∙ stop)
