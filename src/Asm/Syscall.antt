-- ===== src/Asm/Syscall.antt =====
-- The entry of the system calls in isr.asm, and the wrappers of kernel/include/syscall.h that a
-- program calls it by.
use mathlib.Core.Path.{subst}
use zer0s.Prelude.{
  ℕ, ◌*◌, ◌^◌, ◌≤◌, ◌<◌, ◌≡◌, ◌≢◌, inl, inr, refl, sym, ap, ◌∙◌, arith, Bool, Bool-cases, true,
  false, ◌||◌, not, List, [], ◌∷◌, ◌==◌, if◌then◌else◌, holds_below, holds_below_lem,
}
use zer0s.Asm.{
  Cpu, Instr, mov, call, swapgs, iretq, set_reg, step, exec, rax, rbx, rcx, rdx, rsi, rdi, rbp, rsp,
  r8, r9, r10, r11,
}
use zer0s.Asm.Stack.{
  has, NoRsp, enclose, push_all, exec-append, Enclosed, KeepsStack, enclose-Enclosed,
}
use zer0s.Asm.Words.{WordsAt, IsBalanced-WordsAt, push_all-Pushed, return_from-Returned}
use zer0s.Asm.Entry.{interrupt, syscall_handler}
use zer0s.Asm.Transparent.{
  frame, interrupt-IsEntered, IsTransparent, Returned-IsTransparent, KeepsCaller, set_reg-other,
}

abbrev kept : List ℕ
kept = rax ∷ rbx ∷ rcx ∷ rdx ∷ rsi ∷ rdi ∷ rbp ∷ r8 ∷ r9 ∷ r10 ∷ r11 ∷ []

abbrev pass : List Instr
pass = mov rdi rax ∷ mov rsi rbx ∷ mov rdx rcx ∷ mov rcx rdx ∷ call ∷ []

kept_table :
    holds_below
      (λ r.
        (r == rsp)
        || has r kept
        || (if 12 == r then true else if 13 == r then true else if 14 == r then true else 15 == r))
      16
    ≡ true
unfolding holds_below
kept_table = refl

abbrev pub flip_gs : Cpu → Cpu
flip_gs c = record c { kernel_gs = not c.kernel_gs }

high_lem : (r : ℕ) → r < 16 → r ≢ rsp → has r kept ≡ false → 12 ≤ r
high_lem r lt ne out = ground (arith, ne, out, holds_below_lem _ 16 kept_table r lt)

not-not : (b : Bool) → not (not b) ≡ b
not-not true = refl
not-not false = refl

module _ {W : Type 0} (callee : Cpu → W → Cpu × W) where
  -- A function in C keeps its caller's stack and r12 to r15.
  pub record IsCFunction : Type 0 where
    pub stack : KeepsCaller callee
    pub kept_regs : (c : Cpu) (w : W) (r : ℕ) → 12 ≤ r → r < 16 → (callee c w).0.regs r ≡ c.regs r

  -- The calling code goes on as it was, and the dispatcher was called once, with these arguments.
  pub record IsDispatched (c : Cpu) (w : W) (out : Cpu × W) : Type 0 where
    pub transparent : IsTransparent c out.0
    pub called : Cpu
    pub num : called.regs rdi ≡ c.regs rax
    pub arg1 : called.regs rsi ≡ c.regs rbx
    pub arg2 : called.regs rdx ≡ c.regs rcx
    pub arg3 : called.regs rcx ≡ c.regs rcx
    pub world : out.1 ≡ (callee called w).1

  abbrev called_with : Cpu → Cpu
  called_with c =
      let c1 = set_reg rdi (c.regs rax) c in
      let c2 = set_reg rsi (c1.regs rbx) c1 in
      let c3 = set_reg rdx (c2.regs rcx) c2 in set_reg rcx (c3.regs rdx) c3

  pass-KeepsStack : (top : ℕ) → IsCFunction → KeepsStack callee pass top
  unfolding exec step
  pass-KeepsStack top f c w at =
      let k = f.stack (called_with c) w in record { top = k.top; above = k.above; gs = k.gs }

  kept-NoRsp : NoRsp kept
  kept-NoRsp = omega arith

  called_with-high : (c : Cpu) (r : ℕ) → 12 ≤ r → (called_with c).regs r ≡ c.regs r
  called_with-high c r high =
      let c1 = set_reg rdi (c.regs rax) c in
      let c2 = set_reg rsi (c1.regs rbx) c1 in
      let c3 = set_reg rdx (c2.regs rcx) c2 in
      set_reg-other r rcx (c3.regs rdx) c3 (omega (arith, high))
      ∙ set_reg-other r rdx (c2.regs rcx) c2 (omega (arith, high))
      ∙ set_reg-other r rsi (c1.regs rbx) c1 (omega (arith, high))
      ∙ set_reg-other r rdi (c.regs rax) c (omega (arith, high))

  -- The pushes, the call and the pops keep every register but the top of the stack.
  kept_all :
      (c : Cpu) (w : W)
      → IsCFunction
      → Enclosed callee kept pass c w
      → ((r : ℕ) → r ≢ rsp → (push_all kept c).regs r ≡ c.regs r)
      → (r : ℕ) → r < 16
      → r ≢ rsp
      → (exec callee (enclose kept pass) c w).0.regs r ≡ c.regs r
  unfolding exec step
  kept_all c w f e pushed r lt ne = elim (Bool-cases (has r kept)) [
    | inl in_kept ↦ e.restored r in_kept
    | inr out ↦
        (let high = high_lem r lt ne out in
          e.others r out ne
          ∙ f.kept_regs (called_with (push_all kept c)) w r high lt
          ∙ called_with-high (push_all kept c) r high
          ∙ pushed r ne)
  ]

  pub syscall_handler-IsDispatched :
      (top : ℕ) (c : Cpu) (w : W)
      → IsCFunction
      → 128 ≤ top
      → top < 2 ^ 64
      → IsDispatched c w (exec callee syscall_handler (interrupt top c) w)
  unfolding syscall_handler exec step
  syscall_handler-IsDispatched top c w f room lt =
      let e = interrupt-IsEntered top c (omega arith) lt in
      let c1 = flip_gs (interrupt top c) in
      let low : 8 * 11 ≤ c1.regs rsp = omega (arith, e.at) in
      let small : c1.regs rsp < 2 ^ 64 = omega (arith, e.at) in
      let p = push_all-Pushed kept c1 (frame c) kept-NoRsp low small e.words in
      let en = enclose-Enclosed callee kept pass c1 w kept-NoRsp low small (pass-KeepsStack _ f) in
      let c2 = (exec callee (enclose kept pass) c1 w).0 in
      let c3 = flip_gs c2 in
      let words : WordsAt c3.memory (c3.regs rsp) (frame c) =
        subst (λ (q : ℕ). WordsAt c3.memory q (frame c)) (sym en.balanced.top)
          (IsBalanced-WordsAt c1 c2 (c1.regs rsp) (frame c) en.balanced (omega arith) e.words) in
      let back =
        return_from-Returned c3 c.rip c.cs c.rflags (c.regs rsp) c.ss
          (omega (arith, en.balanced.top, e.at)) words in
      let out = exec-append callee (enclose kept pass) (swapgs ∷ iretq ∷ []) c1 w in
      let called = called_with (push_all kept c1) in
      subst (IsDispatched c w) (sym out) (record {
        transparent =
            Returned-IsTransparent c c3 back
              (λ r small ne. kept_all c1 w f en p.others r small ne ∙ e.others r ne)
              (ap not en.balanced.gs ∙ not-not _ ∙ e.gs);
        called = called;
        num = p.others rax (omega arith) ∙ e.others rax (omega arith);
        arg1 = p.others rbx (omega arith) ∙ e.others rbx (omega arith);
        arg2 = p.others rcx (omega arith) ∙ e.others rcx (omega arith);
        arg3 = p.others rcx (omega arith) ∙ e.others rcx (omega arith);
        world = en.world;
      })
