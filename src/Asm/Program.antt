-- ===== src/Asm/Program.antt =====
-- The wrappers of kernel/include/syscall.h, as a program runs them: from `int $0x80` through
-- isr.asm to the dispatcher in kernel/core/syscall.c and back.
use zer0s.Prelude.{
  ℕ, ◌+◌, ◌^◌, ◌≤◌, ◌<◌, ◌≡◌, refl, sym, ap, ◌∙◌, arith, Option, none, some, List, length,
}
use zer0s.Strings.Stored.{StoredString, StoredString-Stored}
use zer0s.Console.{Console, terminal_writestring, print_hex}
use zer0s.Console.Hex.{PrintsHex, print_hex-PrintsHex}
use zer0s.Interrupts.Syscall.{
  syscall_dispatcher, syscall_dispatcher_prints, syscall_dispatcher_writes,
}
use zer0s.Interrupts.Syscall
use zer0s.Asm.{Cpu, exec, set_reg, rax, rbx, rcx, rdx, rsi, rdi}
use zer0s.Asm.Stack.{IsBalanced}
use zer0s.Asm.Entry.{interrupt, syscall_handler}
use zer0s.Asm.Transparent.{IsTransparent, KeepsCaller, set_reg-other}
use zer0s.Asm.Syscall.{IsCFunction, syscall_handler-IsDispatched}

-- What is left of the dispatcher's run: its result, and the screen.
abbrev pub screen_of : Option (ℕ × Console) → Option Console
screen_of none = none
screen_of (some (r, t)) = some t

abbrev pub result_of : Option (ℕ × Console) → ℕ
result_of none = 0
result_of (some (r, t)) = r

-- The registers that the inline assembly sets.
abbrev pub arguments : (num arg1 arg2 arg3 : ℕ) → Cpu → Cpu
arguments num arg1 arg2 arg3 c =
    set_reg rdx arg3 (set_reg rcx arg2 (set_reg rbx arg1 (set_reg rax num c)))

-- A function in C of a number and three arguments, which may print, in the dispatcher's place. The
-- dispatcher itself is `syscall_dispatcher` on the caller's memory, and does not read the third.
abbrev pub Dispatcher : Type 0
Dispatcher = (num arg1 arg2 arg3 : ℕ) → Console → Option (ℕ × Console)

module _ (dispatcher : Dispatcher) (leftover : Cpu → Cpu) where
  abbrev pub answer : Cpu → Console → Option (ℕ × Console)
  answer c t = dispatcher (c.regs rdi) (c.regs rsi) (c.regs rdx) (c.regs rcx) t

  -- The dispatcher as compiled code: its arguments and its result are in registers, and
  -- `leftover` is what else it leaves in them. The screen is `none` when it never returns.
  abbrev pub compiled : Cpu → Option Console → Cpu × Option Console
  compiled c none = (set_reg rax 0 (leftover c), none)
  compiled c (some t) = (set_reg rax (result_of (answer c t)) (leftover c), screen_of (answer c t))

  -- What compiled code keeps: the stack, and r12 to r15.
  pub record IsCompiled : Type 0 where
    pub stack : (c : Cpu) → IsBalanced c (leftover c)
    pub kept_regs : (c : Cpu) (r : ℕ) → 12 ≤ r → r < 16 → (leftover c).regs r ≡ c.regs r

  with_result : (v : ℕ) (c : Cpu) → IsCompiled → IsBalanced c (set_reg rax v (leftover c))
  with_result v c is = let k = is.stack c in record { top = k.top; above = k.above; gs = k.gs }

  compiled-KeepsCaller : IsCompiled → KeepsCaller compiled
  compiled-KeepsCaller is c none = with_result _ c is
  compiled-KeepsCaller is c (some t) = with_result _ c is

  compiled-kept_regs :
      (c : Cpu) (w : Option Console) (r : ℕ)
      → IsCompiled
      → 12 ≤ r
      → r < 16
      → (compiled c w).0.regs r ≡ c.regs r
  compiled-kept_regs c none r is high lt =
      set_reg-other r rax _ (leftover c) (omega (arith, high)) ∙ is.kept_regs c r high lt
  compiled-kept_regs c (some t) r is high lt =
      set_reg-other r rax _ (leftover c) (omega (arith, high)) ∙ is.kept_regs c r high lt

  compiled-IsCFunction : IsCompiled → IsCFunction compiled
  compiled-IsCFunction is = record {
    stack = compiled-KeepsCaller is;
    kept_regs = λ c w r high lt. compiled-kept_regs c w r is high lt;
  }

  -- `top` is the top of the kernel's stack.
  unfoldable pub syscall : (num arg1 arg2 arg3 top : ℕ) → Cpu → Console → ℕ × Cpu × Option Console
  syscall num arg1 arg2 arg3 top c t =
      let out =
        exec compiled syscall_handler (interrupt top (arguments num arg1 arg2 arg3 c)) (some t) in
      (out.0.regs rax, out.0, out.1)

  -- The program goes on, with these registers, and the screen is as the dispatcher leaves it.
  pub record IsAnswered (num arg1 arg2 arg3 : ℕ) (c : Cpu) (t : Console)
      (out : ℕ × Cpu × Option Console) : Type 0 where
    pub transparent : IsTransparent (arguments num arg1 arg2 arg3 c) out.1
    pub result : out.0 ≡ num
    pub screen : out.2 ≡ screen_of (dispatcher num arg1 arg2 arg2 t)

  -- A system call, on a stack with room, with any function of a number and three arguments as
  -- compiled code in the dispatcher's place: the program goes on with its registers as it set them,
  -- and the screen is as that function leaves it for the number, the first argument, and the second
  -- argument twice. The third argument does not reach it, and the call's result is its own number,
  -- whatever the function returns.
  pub syscall-IsAnswered :
      (num arg1 arg2 arg3 top : ℕ) (c : Cpu) (t : Console)
      → IsCompiled
      → 128 ≤ top
      → top < 2 ^ 64
      → IsAnswered num arg1 arg2 arg3 c t (syscall num arg1 arg2 arg3 top c t)
  unfolding syscall
  syscall-IsAnswered num arg1 arg2 arg3 top c t f room lt =
      let d =
        syscall_handler-IsDispatched compiled top (arguments num arg1 arg2 arg3 c) (some t)
          (compiled-IsCFunction f) room lt in
      record {
        transparent = d.transparent;
        result = d.transparent.registers rax (omega arith);
        screen = d.world ∙ rw (d.num, d.arg1, d.arg2, d.arg3) refl;
      }

module _ (memory : ℕ → ℕ) (leftover : Cpu → Cpu) where
  unfoldable pub sys_print_string : (str top : ℕ) → Cpu → Console → Cpu × Option Console
  unfolding syscall
  sys_print_string str top c t =
      let (ret, c', t') =
        syscall (syscall_dispatcher memory) leftover Syscall.sys_print_string str 0 0 top c t in
      (c', t')

  unfoldable pub sys_print_hex : (value top : ℕ) → Cpu → Console → Cpu × Option Console
  unfolding syscall
  sys_print_hex value top c t =
      let (ret, c', t') =
        syscall (syscall_dispatcher memory) leftover Syscall.sys_print_hex value 0 0 top c t in
      (c', t')

  -- On a string that ends before the last address, with room on the stack, sys_print_string prints
  -- it up to its NUL, and the program goes on with the registers of the call.
  pub sys_print_string_lem :
      (p top : ℕ) (s : List ℕ) (c : Cpu) (t : Console)
      → IsCompiled (syscall_dispatcher memory) leftover
      → 128 ≤ top
      → top < 2 ^ 64
      → StoredString memory p s
      → p + length s < 2 ^ 64
      → IsTransparent (arguments 3 p 0 0 c) (sys_print_string p top c t).0
        × ((sys_print_string p top c t).1 ≡ some (terminal_writestring s t))
  unfolding sys_print_string
  sys_print_string_lem p top s c t f room lt at le =
      let a =
        syscall-IsAnswered (syscall_dispatcher memory) leftover Syscall.sys_print_string p 0 0 top c
          t f room lt in
      let prints = syscall_dispatcher_prints memory p 0 0 s t at le in
      (
        a.transparent,
        a.screen
            ∙ ap screen_of prints.1
            ∙ sym (ap screen_of prints.2)
            ∙ ap screen_of (
                syscall_dispatcher_writes memory p 0 s t (StoredString-Stored memory p s at)
                  (omega arith)),
      )

  -- Every 64-bit number is printed in canonical hexadecimal.
  pub sys_print_hex_lem :
      (value top : ℕ) (c : Cpu) (t : Console)
      → IsCompiled (syscall_dispatcher memory) leftover
      → 128 ≤ top
      → top < 2 ^ 64
      → value < 2 ^ 64
      → IsTransparent (arguments 4 value 0 0 c) (sys_print_hex value top c t).0
        × ((sys_print_hex value top c t).1 ≡ some (print_hex value t))
        × PrintsHex value t
  unfolding sys_print_hex syscall_dispatcher
  sys_print_hex_lem value top c t f room lt small =
      let a =
        syscall-IsAnswered (syscall_dispatcher memory) leftover Syscall.sys_print_hex value 0 0 top
          c t f room lt in
      (a.transparent, a.screen, print_hex-PrintsHex value t small)
