-- ===== src/Asm/ToUser.antt =====
-- `switch_to_user` of switch.asm.
use zer0s.Prelude.{ℕ, ◌^◌, ◌≤◌, ◌<◌, ◌≡◌, ◌≢◌, ◌∙◌, refl, true, arith, [], ◌∷◌}
use zer0s.Asm.{Cpu, push_value, step, exec, without_if, set_reg, rsp, rsi, rdi}
use zer0s.Asm.Stack.{pushed_reg}
use zer0s.Asm.Words.{WordsAt}
use zer0s.Asm.Return.{Return, protection_fault, run, run-return, no_return, return_checked-fault}
use zer0s.Asm.Resume.{gdt_limit}
use zer0s.Asm.Switch.{enter_user, switch_to_user}
use zer0s.Asm.Transparent.{entered-push, set_reg-other}

-- At the `iretq`: the five words for user mode, interrupts off, the other registers as they were,
-- and a fault on the user's code segment.
pub record IsStopped (c : Cpu) (out : Return) : Type 0 where
  pub at : Cpu
  pub words :
      WordsAt at.memory
        (at.regs rsp)
        (c.regs rdi ∷ 0x1B ∷ without_if c.rflags ∷ c.regs rsi ∷ 0x23 ∷ [])
  pub rflags : at.rflags ≡ without_if c.rflags
  pub others : (r : ℕ) → r ≢ rsp → at.regs r ≡ c.regs r
  pub stopped : out ≡ protection_fault 0x1B at

no_returns : no_return enter_user ≡ true
unfolding enter_user
no_returns = refl

module _ {W : Type 0} (callee : Cpu → W → Cpu × W) where
  -- With room on the stack it is given, and under the loader's descriptor table, switch_to_user
  -- sets up user mode at the address in `rdi`, on the stack in `rsi`, with interrupts off, and its
  -- `iretq` faults on the selector 0x1B, which lies behind the table.
  switch_to_user-IsStopped :
      (c : Cpu) (w : W)
      → 40 ≤ c.regs rsi
      → c.regs rsi < 2 ^ 64
      → IsStopped c (run callee gdt_limit switch_to_user c w)
  unfolding switch_to_user enter_user exec step push_value
  switch_to_user-IsStopped c w room lt =
      let top = c.regs rsi in
      let flags = without_if c.rflags in
      let c0 = set_reg rsp top (record c { rflags = flags }) in
      let c1 = push_value 0x23 c0 in
      let c2 = push_value top c1 in
      let c3 = push_value flags c2 in
      let c4 = push_value 0x1B c3 in
      let c5 = push_value (c.regs rdi) c4 in
      let p1 = entered-push 0x23 c0 0 top [] (omega arith) (omega arith) lt tt in
      let p2 = entered-push top c1 8 top (0x23 ∷ []) p1.0 (omega arith) lt p1.1 in
      let p3 = entered-push flags c2 16 top (top ∷ 0x23 ∷ []) p2.0 (omega arith) lt p2.1 in
      let p4 = entered-push 0x1B c3 24 top (flags ∷ top ∷ 0x23 ∷ []) p3.0 (omega arith) lt p3.1 in
      let p5 =
        entered-push (c.regs rdi) c4 32 top (0x1B ∷ flags ∷ top ∷ 0x23 ∷ []) p4.0 (omega arith) lt
          p4.1 in
      record {
        at = c5;
        words = p5.1;
        rflags = refl;
        others = λ r ne.
            pushed_reg (c.regs rdi) c4 r ne
            ∙ pushed_reg 0x1B c3 r ne
            ∙ pushed_reg flags c2 r ne
            ∙ pushed_reg top c1 r ne
            ∙ pushed_reg 0x23 c0 r ne
            ∙ set_reg-other r rsp top (record c { rflags = flags }) ne;
        stopped =
            run-return callee gdt_limit enter_user c w no_returns
            ∙ return_checked-fault gdt_limit c5 (c.regs rdi) 0x1B (flags ∷ top ∷ 0x23 ∷ [])
                (omega (arith, p5.0, room, lt)) p5.1 (omega arith);
      }
