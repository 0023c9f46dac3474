-- ===== src/Asm/Resume.antt =====
-- The whole of `switch_context`.
use zer0s.Prelude.{ℕ, ◌+◌, ◌-◌, ◌*◌, ◌%◌, ◌^◌, ◌≡◌, length}
use zer0s.Asm.{Cpu, rsi, rdi}
use zer0s.Asm.Words.{WordsAt}
use zer0s.LongMode.{gdt_words}
use zer0s.Asm.Return.{Return, protection_fault}
use zer0s.Asm.Save.{context, write_words}
use zer0s.Asm.Load.{IsLoaded}

-- The memory with the context in its place, and the top of the new stack that the other one gives.
abbrev pub saved_memory : Cpu → ℕ → ℕ
saved_memory c = write_words c.memory (c.regs rdi) (context c)

abbrev pub new_top : Cpu → ℕ
new_top c = saved_memory c (c.regs rsi + 0x38)

-- The descriptor table of the loader.
abbrev pub gdt_limit : ℕ
gdt_limit = 8 * length gdt_words - 1

-- The flags in the structure of the process that should go on.
abbrev pub new_flags : Cpu → ℕ
new_flags c = saved_memory c (c.regs rsi + 0x88)

-- The structure at `old` holds the context, the registers are loaded from the one at `new`, and the
-- return to it is a fault.
pub record IsStopped (c : Cpu) (out : Return) : Type 0 where
  pub at : Cpu
  pub saved : WordsAt at.memory (c.regs rdi) (context c)
  pub loaded : IsLoaded (saved_memory c) (c.regs rsi) (new_top c) at
  pub stopped : out ≡ protection_fault (new_flags c % 2 ^ 16) at
