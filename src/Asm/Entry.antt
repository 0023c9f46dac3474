-- ===== src/Asm/Entry.antt =====
-- The entries of interrupts: kernel/arch/x86_64/isr.asm and isr_default.asm.
use zer0s.Prelude.{ℕ, ◌+◌, Bool, ◌||◌, List, [], ◌∷◌, ◌==◌, if◌then◌else◌, store}
use zer0s.Interrupts.Isr.{Registers}
use zer0s.Asm.{
  Cpu, Instr, push, pop, push_word, mov, add_to, call, swapgs, iretq, push_value, rax, rbx, rcx,
  rdx, rsi, rdi, rbp, rsp, r8, r9, r10, r11, r12, r13, r14, r15,
}

-- What the processor does first: from the top of the stack that it takes, it pushes where it was.
unfoldable pub interrupt : (top : ℕ) → Cpu → Cpu
interrupt top c = push_value c.rip (
    push_value c.cs (
      push_value c.rflags
        (push_value (c.regs rsp) (push_value c.ss (record c { regs = store c.regs rsp top })))))

-- The exceptions for which the processor pushes an error code too, as its manual lists them.
unfoldable pub pushes_code : ℕ → Bool
pushes_code n =
    (n == 8)
    || (n == 10)
    || (n == 11)
    || (n == 12)
    || (n == 13)
    || (n == 14)
    || (n == 17)
    || (n == 21)
    || (n == 29)
    || (n == 30)

-- What the processor does first in an exception.
unfoldable pub exception : (n err_code top : ℕ) → Cpu → Cpu
unfolding interrupt
exception n err_code top c =
    if pushes_code n then push_value err_code (interrupt top c) else interrupt top c

unfoldable pub isr_common : List Instr
isr_common =
    push rax
    ∷ push rbx
    ∷ push rcx
    ∷ push rdx
    ∷ push rsi
    ∷ push rdi
    ∷ push rbp
    ∷ push r8
    ∷ push r9
    ∷ push r10
    ∷ push r11
    ∷ push r12
    ∷ push r13
    ∷ push r14
    ∷ push r15
    ∷ mov rdi rsp
    ∷ call
    ∷ pop r15
    ∷ pop r14
    ∷ pop r13
    ∷ pop r12
    ∷ pop r11
    ∷ pop r10
    ∷ pop r9
    ∷ pop r8
    ∷ pop rbp
    ∷ pop rdi
    ∷ pop rsi
    ∷ pop rdx
    ∷ pop rcx
    ∷ pop rbx
    ∷ pop rax
    ∷ add_to rsp 16
    ∷ iretq
    ∷ []

unfoldable pub irq_common : List Instr
irq_common =
    push rax
    ∷ push rbx
    ∷ push rcx
    ∷ push rdx
    ∷ push rsi
    ∷ push rdi
    ∷ push rbp
    ∷ push r8
    ∷ push r9
    ∷ push r10
    ∷ push r11
    ∷ push r12
    ∷ push r13
    ∷ push r14
    ∷ push r15
    ∷ mov rdi rsp
    ∷ call
    ∷ pop r15
    ∷ pop r14
    ∷ pop r13
    ∷ pop r12
    ∷ pop r11
    ∷ pop r10
    ∷ pop r9
    ∷ pop r8
    ∷ pop rbp
    ∷ pop rdi
    ∷ pop rsi
    ∷ pop rdx
    ∷ pop rcx
    ∷ pop rbx
    ∷ pop rax
    ∷ add_to rsp 16
    ∷ iretq
    ∷ []

-- The macros; a `jmp` is the code that follows.
unfoldable pub isr_noerrcode : ℕ → List Instr
isr_noerrcode n = push_word 0 ∷ push_word n ∷ isr_common

unfoldable pub isr_errcode : ℕ → List Instr
isr_errcode n = push_word n ∷ isr_common

unfoldable pub irq : ℕ → List Instr
irq vector = push_word 0 ∷ push_word vector ∷ irq_common

-- The exceptions that the file takes to come with an error code.
unfoldable pub has_errcode : ℕ → Bool
has_errcode n =
    (n == 8) || (n == 10) || (n == 11) || (n == 12) || (n == 13) || (n == 14) || (n == 17)

unfoldable pub isr : ℕ → List Instr
unfolding isr_noerrcode isr_errcode
isr n = if has_errcode n then isr_errcode n else isr_noerrcode n

unfoldable pub isr_default : List Instr
isr_default =
    push rax
    ∷ push rbx
    ∷ push rcx
    ∷ push rdx
    ∷ push rsi
    ∷ push rdi
    ∷ push rbp
    ∷ push r8
    ∷ push r9
    ∷ push r10
    ∷ push r11
    ∷ push r12
    ∷ push r13
    ∷ push r14
    ∷ push r15
    ∷ mov rdi rsp
    ∷ call
    ∷ pop r15
    ∷ pop r14
    ∷ pop r13
    ∷ pop r12
    ∷ pop r11
    ∷ pop r10
    ∷ pop r9
    ∷ pop r8
    ∷ pop rbp
    ∷ pop rdi
    ∷ pop rsi
    ∷ pop rdx
    ∷ pop rcx
    ∷ pop rbx
    ∷ pop rax
    ∷ iretq
    ∷ []

unfoldable pub syscall_handler : List Instr
syscall_handler =
    swapgs
    ∷ push rax
    ∷ push rbx
    ∷ push rcx
    ∷ push rdx
    ∷ push rsi
    ∷ push rdi
    ∷ push rbp
    ∷ push r8
    ∷ push r9
    ∷ push r10
    ∷ push r11
    ∷ mov rdi rax
    ∷ mov rsi rbx
    ∷ mov rdx rcx
    ∷ mov rcx rdx
    ∷ call
    ∷ pop r11
    ∷ pop r10
    ∷ pop r9
    ∷ pop r8
    ∷ pop rbp
    ∷ pop rdi
    ∷ pop rsi
    ∷ pop rdx
    ∷ pop rcx
    ∷ pop rbx
    ∷ pop rax
    ∷ swapgs
    ∷ iretq
    ∷ []

-- The fields of a `registers_t` behind the 15 saved registers.
unfoldable pub read_registers : (ℕ → ℕ) → ℕ → Registers
read_registers memory p = record {
  int_no = memory (p + 120);
  err_code = memory (p + 128);
  rip = memory (p + 136);
  cs = memory (p + 144);
  rflags = memory (p + 152);
  rsp = memory (p + 160);
  ss = memory (p + 168);
}
