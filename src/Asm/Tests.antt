-- ===== src/Asm/Tests.antt =====
-- Runs of the assembly.
use zer0s.Prelude.{ℕ, ◌+◌, ◌≡◌, refl, arith, some, false, leb, List, ◌==◌, if◌then◌else◌}
use zer0s.Console.{print, print_hex}
use zer0s.Interrupts.Isr.{
  returned, halted, exception_messages, get_elem?, exception_report, isr_handler,
}
use zer0s.Machine.{running, Ensures}
use zer0s.Machine.Samples.{screen, sample, sample-IsSound}
use zer0s.Interrupts.Idt.{gate}
use zer0s.Keyboard.Typing.{cleared-IsTyping}
use zer0s.Kernel.{Kernel, irq_handler}
use zer0s.Kernel.Irq.{Answers, IsInOrder}
use zer0s.Asm.{Cpu, exec, set_reg, rsp, rsi, rdi, rcx}
use zer0s.Asm.Stack.{IsBalanced}
use zer0s.Asm.Entry.{interrupt, exception, irq, isr, isr_default, read_registers}
use zer0s.Asm.Transparent.{IsTransparent}
use zer0s.Asm.Served.{reported, isr_default-misread}
use zer0s.Asm.Program.{Dispatcher, IsCompiled, syscall, IsAnswered, syscall-IsAnswered}
use zer0s.Asm.Handled.{irq_handled, compiled_isr, irq-irq_handler, isr-isr_handler}

-- Registers with different values, and a stack at 0x8000. At 0x2000 is the context of a process
-- whose stack is at 0x9000, with the flags of a new process.
abbrev cpu : Cpu
cpu = record {
  regs = λ r.
      if r == rsp
      then 0x8000
      else if r == rdi
      then 0x1000
      else if r == rsi
      then 0x2000
      else 100 + r;
  memory = λ a. if a == 0x2038 then 0x9000 else if a == 0x2088 then 0x202 else a;
  rip = 0x400000;
  cs = 0x1B;
  rflags = 0x202;
  ss = 0x23;
  kernel_gs = false;
}

-- Compiled code that leaves another value in `rcx`.
abbrev leftover : Cpu → Cpu
leftover c = set_reg rcx 7 c

leftover-IsBalanced : (c : Cpu) → IsBalanced c (leftover c)
leftover-IsBalanced c = record { top = refl; above = λ a le. refl; gs = refl }

-- The ports are ready at the third poll, with a scan code that types a letter.
abbrev status : ℕ → ℕ
status n = if leb 2 n then 0x1D else 0x1C

abbrev letter : ℕ → ℕ
letter n = 0x23

status-Answers : Answers status 5 0
status-Answers = (2, omega arith, refl)

abbrev ready : Kernel
ready = record {
  idt = record {
    idt = λ v. gate 0 0 0;
    idtp = record { limit = 0; base = 0 };
    loaded = record { limit = 0; base = 0 };
  };
  keyboard = record {
    shift_pressed = false;
    ctrl_pressed = false;
    alt_pressed = false;
    caps_lock = false;
    num_lock = false;
    scroll_lock = false;
    dead_key = false;
    dead_char = 0;
    cmd_buffer = λ i. 0;
    cmd_pos = 0;
  };
  machine = sample;
}

irq-irq_handler_example :
    let out =
      exec
        (irq_handled leftover status letter 5 0)
        (irq 33)
        (interrupt 0x7000 cpu)
        (running ready) in
    IsTransparent cpu out.0
    × (out.1 ≡ irq_handler status letter 5 0 33 ready)
    × Ensures IsInOrder out.1
irq-irq_handler_example =
    irq-irq_handler leftover status letter 5 0 33 0x7000 cpu ready leftover-IsBalanced (omega arith)
      (omega arith) (λ e. status-Answers)
      (cleared-IsTyping ready.keyboard refl refl, sample-IsSound)

-- A control protection fault, whose error code the file does not expect.
isr-isr_handler_example :
    (message : List ℕ) × (get_elem? exception_messages 21 ≡ some message)
    × ((exec
          (compiled_isr leftover isr_handler)
          (isr 21)
          (exception 21 2 0x7000 cpu)
          (returned screen)).1
        ≡ halted (print (exception_report (reported 21 2 cpu) message) screen))
isr-isr_handler_example =
    isr-isr_handler leftover 21 2 0x7000 cpu screen leftover-IsBalanced (omega arith) (omega arith)
      (omega arith)

-- A handler that counts its calls.
abbrev counted : Cpu → ℕ → Cpu × ℕ
counted c n = (leftover c, n + 1)

isr_default-misread_example :
    let out = exec counted isr_default (interrupt 0x7000 cpu) 5 in
    IsTransparent cpu out.0
    × ((called : Cpu) × ((read_registers called.memory (called.regs rdi)).int_no ≡ 0x400000)
        × ((read_registers called.memory (called.regs rdi)).err_code ≡ 0x1B)
        × (out.1 ≡ (counted called 5).1))
isr_default-misread_example =
    isr_default-misread counted 0x7000 cpu 5 (λ c n. leftover-IsBalanced c) (omega arith)
      (omega arith)

-- A dispatcher that prints its third argument.
abbrev third : Dispatcher
third num arg1 arg2 arg3 t = some (0, print_hex arg3 t)

leftover-IsCompiled : IsCompiled third leftover
leftover-IsCompiled = record {
  stack = leftover-IsBalanced;
  kept_regs = λ c r high lt. ground (arith, high);
}

syscall-IsAnswered_example :
    IsAnswered third leftover 4 255 6 7 cpu screen
      (syscall third leftover 4 255 6 7 0x7000 cpu screen)
syscall-IsAnswered_example =
    syscall-IsAnswered third leftover 4 255 6 7 0x7000 cpu screen leftover-IsCompiled (omega arith)
      (omega arith)
