-- ===== src/Asm.antt =====
-- The assembly of kernel/arch/x86_64, on a processor with the instructions that it uses.
pub mod Stack
pub mod Words
pub mod Entry
pub mod Transparent
pub mod Common
pub mod Served
pub mod Syscall
pub mod Program
pub mod Handled
pub mod Return
pub mod Switch
pub mod Save
pub mod Load
pub mod Resume
pub mod ToUser
mod Tests
use zer0s.Prelude.{ℕ, ◌+◌, ◌-◌, ◌*◌, ◌/◌, ◌%◌, ◌^◌, Bool, not, List, [], ◌∷◌, store, u64}

-- The general registers, by the numbers that the processor gives them.
abbrev pub rax : ℕ
rax = 0

abbrev pub rcx : ℕ
rcx = 1

abbrev pub rdx : ℕ
rdx = 2

abbrev pub rbx : ℕ
rbx = 3

abbrev pub rsp : ℕ
rsp = 4

abbrev pub rbp : ℕ
rbp = 5

abbrev pub rsi : ℕ
rsi = 6

abbrev pub rdi : ℕ
rdi = 7

abbrev pub r8 : ℕ
r8 = 8

abbrev pub r9 : ℕ
r9 = 9

abbrev pub r10 : ℕ
r10 = 10

abbrev pub r11 : ℕ
r11 = 11

abbrev pub r12 : ℕ
r12 = 12

abbrev pub r13 : ℕ
r13 = 13

abbrev pub r14 : ℕ
r14 = 14

abbrev pub r15 : ℕ
r15 = 15

-- `memory a` is the 64-bit word at an address; the code only reads and writes words that do not
-- overlap. `kernel_gs` is the side of `swapgs`.
pub record Cpu : Type 0 where
  pub regs : ℕ → ℕ
  pub memory : ℕ → ℕ
  pub rip : ℕ
  pub cs : ℕ
  pub rflags : ℕ
  pub ss : ℕ
  pub kernel_gs : Bool

abbrev pub set_reg : ℕ → ℕ → Cpu → Cpu
set_reg r v c = record c { regs = store c.regs r v }

-- The operands: registers are `r` and `s`, `at s off` is `[s + off]`.
pub data Instr : Type 0 where
  push pop : (r : ℕ) → Instr
  push_word : (v : ℕ) → Instr
  push_at : (s off : ℕ) → Instr
  mov : (r s : ℕ) → Instr
  load : (r s off : ℕ) → Instr
  save : (s off r : ℕ) → Instr
  add_to : (r v : ℕ) → Instr
  call swapgs iretq cli pushfq : Instr

unfoldable pub push_value : ℕ → Cpu → Cpu
push_value v c =
    let top = u64 (c.regs rsp + 2 ^ 64 - 8) in
    record c { regs = store c.regs rsp top; memory = store c.memory top v }

-- The processor's return from an interrupt.
unfoldable pub return_from : Cpu → Cpu
return_from c =
    let word = λ (off : ℕ). c.memory (u64 (c.regs rsp + off)) in
    record c {
      rip = word 0;
      cs = word 8;
      rflags = word 16;
      regs = store c.regs rsp (word 24);
      ss = word 32;
    }

-- Bit 9, the interrupt flag, cleared.
abbrev pub without_if : ℕ → ℕ
without_if flags = flags / 1024 * 1024 + flags % 512

-- The function behind `call` changes what the code reaches, of type `W`, and comes back behind the
-- call; `call` itself leaves no word above the top of the stack.
module _ {W : Type 0} (callee : Cpu → W → Cpu × W) where
  unfoldable pub step : Instr → Cpu → W → Cpu × W
  unfolding push_value return_from
  step (push r) c w = (push_value (c.regs r) c, w)
  step (pop r) c w =
      let top = c.regs rsp in
      (record c { regs = store (store c.regs rsp (u64 (top + 8))) r (c.memory top) }, w)
  step (push_word v) c w = (push_value v c, w)
  step (push_at s off) c w = (push_value (c.memory (u64 (c.regs s + off))) c, w)
  step (mov r s) c w = (set_reg r (c.regs s) c, w)
  step (load r s off) c w = (set_reg r (c.memory (u64 (c.regs s + off))) c, w)
  step (save s off r) c w =
      (record c { memory = store c.memory (u64 (c.regs s + off)) (c.regs r) }, w)
  step (add_to r v) c w = (set_reg r (u64 (c.regs r + v)) c, w)
  step call c w = callee c w
  step swapgs c w = (record c { kernel_gs = not c.kernel_gs }, w)
  step iretq c w = (return_from c, w)
  step cli c w = (record c { rflags = without_if c.rflags }, w)
  step pushfq c w = (push_value c.rflags c, w)

  unfoldable pub exec : List Instr → Cpu → W → Cpu × W
  exec [] c w = (c, w)
  exec (i ∷ is) c w = let (c', w') = step i c w in exec is c' w'
