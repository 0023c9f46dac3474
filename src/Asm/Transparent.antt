-- ===== src/Asm/Transparent.antt =====
-- What the interrupted code sees of an interrupt, and what the handler in C sees of it.
use mathlib.Core.Path.{subst}
use native.Mathlib.Decide.{ℕ_discrete}
use zer0s.Prelude.{
  ℕ, ◌+◌, ◌-◌, ◌^◌, ◌≤◌, ◌<◌, ◌≡◌, ◌≢◌, refl, sym, ◌∙◌, arith, List, [], ◌∷◌, store,
}
use zer0s.Asm.{Cpu, set_reg, push_value, return_from, rsp}
use zer0s.Asm.Stack.{IsBalanced, pushed_top, pushed_reg}
use zer0s.Asm.Words.{WordsAt, push_value-WordsAt, Returned}
use zer0s.Asm.Entry.{interrupt}

abbrev pub frame : Cpu → List ℕ
frame c = c.rip ∷ c.cs ∷ c.rflags ∷ c.regs rsp ∷ c.ss ∷ []

-- What the processor leaves at the top of the new stack.
pub record IsEntered (top : ℕ) (c c1 : Cpu) : Type 0 where
  pub at : c1.regs rsp ≡ top - 40
  pub words : WordsAt c1.memory (c1.regs rsp) (frame c)
  pub others : (r : ℕ) → r ≢ rsp → c1.regs r ≡ c.regs r
  pub gs : c1.kernel_gs ≡ c.kernel_gs

pub entered-push :
    (v : ℕ) (c : Cpu) (k top : ℕ) (vs : List ℕ)
    → c.regs rsp ≡ top - k
    → k + 8 ≤ top
    → top < 2 ^ 64
    → WordsAt c.memory (c.regs rsp) vs
    → ((push_value v c).regs rsp ≡ top - (k + 8))
      × WordsAt (push_value v c).memory ((push_value v c).regs rsp) (v ∷ vs)
entered-push v c k top vs at le lt words = (
  pushed_top v c (omega (arith, at)) (omega (arith, at)) ∙ omega (arith, at),
  push_value-WordsAt v c vs (omega (arith, at)) (omega (arith, at)) words,
)

pub interrupt-IsEntered :
    (top : ℕ) (c : Cpu) → 40 ≤ top → top < 2 ^ 64 → IsEntered top c (interrupt top c)
unfolding interrupt
interrupt-IsEntered top c le lt =
    let c0 : Cpu = record c { regs = store c.regs rsp top } in
    let c1 = push_value c.ss c0 in
    let c2 = push_value (c.regs rsp) c1 in
    let c3 = push_value c.rflags c2 in
    let c4 = push_value c.cs c3 in
    let p1 = entered-push c.ss c0 0 top [] (omega arith) (omega arith) lt tt in
    let p2 = entered-push (c.regs rsp) c1 8 top (c.ss ∷ []) p1.0 (omega arith) lt p1.1 in
    let p3 = entered-push c.rflags c2 16 top (c.regs rsp ∷ c.ss ∷ []) p2.0 (omega arith) lt p2.1 in
    let p4 =
      entered-push c.cs c3 24 top (c.rflags ∷ c.regs rsp ∷ c.ss ∷ []) p3.0 (omega arith) lt p3.1 in
    let p5 =
      entered-push c.rip c4 32 top (c.cs ∷ c.rflags ∷ c.regs rsp ∷ c.ss ∷ []) p4.0 (omega arith) lt
        p4.1 in
    record {
      at = p5.0;
      words = p5.1;
      others = λ r ne.
          pushed_reg c.rip c4 r ne
          ∙ pushed_reg c.cs c3 r ne
          ∙ pushed_reg c.rflags c2 r ne
          ∙ pushed_reg (c.regs rsp) c1 r ne
          ∙ pushed_reg c.ss c0 r ne
          ∙ ground (arith, ne);
      gs = unfold push_value in refl;
    }

-- The interrupted code goes on where it was, with all its registers.
pub record IsTransparent (c out : Cpu) : Type 0 where
  pub registers : (r : ℕ) → r < 16 → out.regs r ≡ c.regs r
  pub rip : out.rip ≡ c.rip
  pub cs : out.cs ≡ c.cs
  pub rflags : out.rflags ≡ c.rflags
  pub ss : out.ss ≡ c.ss
  pub gs : out.kernel_gs ≡ c.kernel_gs

pub set_reg-other : (r s v : ℕ) (c : Cpu) → r ≢ s → (set_reg s v c).regs r ≡ c.regs r
set_reg-other r s v c ne = ground (arith, ne)

pub Returned-IsTransparent :
    (c c3 : Cpu)
    → Returned c3 c.rip c.cs c.rflags (c.regs rsp) c.ss
    → ((r : ℕ) → r < 16 → r ≢ rsp → c3.regs r ≡ c.regs r)
    → c3.kernel_gs ≡ c.kernel_gs
    → IsTransparent c (return_from c3)
Returned-IsTransparent c c3 back others gs = record {
  registers = λ r lt. elim (ℕ_discrete r rsp) [
    | yes e ↦ subst (λ (x : ℕ). (return_from c3).regs x ≡ c.regs x) (sym e) back.top
    | no ne ↦ back.others r ne ∙ others r lt ne
  ];
  rip = back.rip;
  cs = back.cs;
  rflags = back.rflags;
  ss = back.ss;
  gs = back.gs ∙ gs;
}

module _ {W : Type 0} (callee : Cpu → W → Cpu × W) where
  -- A function in C leaves the stack of its caller as it is.
  abbrev pub KeepsCaller : Type 0
  KeepsCaller = (c : Cpu) (w : W) → IsBalanced c (callee c w).0
