-- ===== src/Asm/Common.antt =====
-- The code that every entry of an interrupt shares, around the call of the handler in C.
use mathlib.Core.Path.{subst}
use zer0s.Prelude.{
  ℕ, ◌+◌, ◌^◌, ◌≤◌, ◌<◌, ◌≡◌, ◌≢◌, refl, sym, ap, ◌∙◌, arith, true, ◌||◌, List, [], ◌∷◌, ◌++◌, ◌==◌,
  u64, holds_below, holds_below_lem,
}
use zer0s.Asm.{
  Cpu, Instr, mov, add_to, call, iretq, set_reg, step, exec, rax, rbx, rcx, rdx, rsi, rdi, rbp, rsp,
  r8, r9, r10, r11, r12, r13, r14, r15,
}
use zer0s.Asm.Stack.{
  IsBalanced, has, NoRsp, enclose, push_all, exec-append, KeepsStack, enclose-Enclosed,
}
use zer0s.Asm.Words.{
  WordsAt, IsBalanced-WordsAt, pushed_words, push_all-Pushed, return_from-Returned,
}
use zer0s.Asm.Transparent.{frame, set_reg-other, IsTransparent, Returned-IsTransparent, KeepsCaller}

abbrev pub saved : List ℕ
saved = rax ∷ rbx ∷ rcx ∷ rdx ∷ rsi ∷ rdi ∷ rbp ∷ r8 ∷ r9 ∷ r10 ∷ r11 ∷ r12 ∷ r13 ∷ r14 ∷ r15 ∷ []

pub saved-NoRsp : NoRsp saved
saved-NoRsp = omega arith

saved_table : holds_below (λ r. (r == rsp) || has r saved) 16 ≡ true
unfolding holds_below
saved_table = refl

saved_all : (r : ℕ) → r < 16 → r ≢ rsp → has r saved ≡ true
saved_all r lt ne = ground (arith, ne, holds_below_lem _ 16 saved_table r lt)

-- What the entries do between the pushes and the pops.
abbrev pub body : List Instr
body = mov rdi rsp ∷ call ∷ []

module _ {W : Type 0} (callee : Cpu → W → Cpu × W) where
  -- The interrupted code goes on, and the handler in C was called once, with a pointer to these
  -- words.
  pub record IsHandled (words : List ℕ) (c : Cpu) (w : W) (out : Cpu × W) : Type 0 where
    pub transparent : IsTransparent c out.0
    pub called : Cpu
    pub pointed : WordsAt called.memory (called.regs rdi) words
    pub world : out.1 ≡ (callee called w).1

  body-KeepsStack : (top : ℕ) → KeepsCaller callee → KeepsStack callee body top
  unfolding exec step
  body-KeepsStack top keeps c w at =
      let k = keeps (set_reg rdi (c.regs rsp) c) w in
      record { top = k.top; above = k.above; gs = k.gs }

  -- The pushes, the call and the pops.
  record Inner (words : List ℕ) (c : Cpu) (w : W) : Type 0 where
    balanced : IsBalanced c (exec callee (enclose saved body) c w).0
    restored :
        (r : ℕ) → r < 16 → r ≢ rsp → (exec callee (enclose saved body) c w).0.regs r ≡ c.regs r
    called : Cpu
    pointed : WordsAt called.memory (called.regs rdi) words
    world : (exec callee (enclose saved body) c w).1 ≡ (callee called w).1

  inner :
      (vs : List ℕ) (c : Cpu) (w : W)
      → KeepsCaller callee
      → 120 ≤ c.regs rsp
      → c.regs rsp < 2 ^ 64
      → WordsAt c.memory (c.regs rsp) vs
      → Inner (pushed_words saved c.regs vs) c w
  unfolding exec step
  inner vs c w keeps room lt at =
      let e =
        enclose-Enclosed callee saved body c w saved-NoRsp (omega arith) lt
          (body-KeepsStack _ keeps) in
      let p = push_all-Pushed saved c vs saved-NoRsp (omega arith) lt at in
      record {
        balanced = e.balanced;
        restored = λ r small ne. e.restored r (saved_all r small ne);
        called = set_reg rdi ((push_all saved c).regs rsp) (push_all saved c);
        pointed = p.words;
        world = e.world;
      }

  -- The handler in C was called once, with a pointer to these words.
  pub record IsCalled (words : List ℕ) (w out : W) : Type 0 where
    pub called : Cpu
    pub pointed : WordsAt called.memory (called.regs rdi) words
    pub world : out ≡ (callee called w).1

  -- Whatever stands at the top of the stack.
  pub any_words :
      (vs : List ℕ) (c : Cpu) (w : W)
      → KeepsCaller callee
      → 120 ≤ c.regs rsp
      → c.regs rsp < 2 ^ 64
      → WordsAt c.memory (c.regs rsp) vs
      → IsCalled
          (pushed_words saved c.regs vs)
          w
          (exec callee (enclose saved body ++ (add_to rsp 16 ∷ iretq ∷ [])) c w).1
  unfolding exec step
  any_words vs c w keeps room lt at =
      let i = inner vs c w keeps room lt at in
      record {
        called = i.called;
        pointed = i.pointed;
        world =
            ap (λ (o : Cpu × W). o.1)
              (exec-append callee (enclose saved body) (add_to rsp 16 ∷ iretq ∷ []) c w)
            ∙ i.world;
      }

  -- Behind two words in front of the processor's, as the stubs push them.
  pub two_words :
      (a b : ℕ) (c c1 : Cpu) (w : W)
      → KeepsCaller callee
      → 120 ≤ c1.regs rsp
      → c1.regs rsp + 56 ≤ 2 ^ 64
      → WordsAt c1.memory (c1.regs rsp) (a ∷ b ∷ frame c)
      → ((r : ℕ) → r ≢ rsp → c1.regs r ≡ c.regs r)
      → c1.kernel_gs ≡ c.kernel_gs
      → IsHandled
          (pushed_words saved c1.regs (a ∷ b ∷ frame c))
          c
          w
          (exec callee (enclose saved body ++ (add_to rsp 16 ∷ iretq ∷ [])) c1 w)
  unfolding exec step
  two_words a b c c1 w keeps room le at others gs =
      let i = inner (a ∷ b ∷ frame c) c1 w keeps room (omega arith) at in
      let c2 = (exec callee (enclose saved body) c1 w).0 in
      let c3 = set_reg rsp (u64 (c2.regs rsp + 16)) c2 in
      let top : c3.regs rsp ≡ c1.regs rsp + 8 + 8 = omega (arith, i.balanced.top) in
      let words : WordsAt c3.memory (c3.regs rsp) (frame c) =
        subst (λ (p : ℕ). WordsAt c3.memory p (frame c)) (sym top)
          (IsBalanced-WordsAt c1 c2 (c1.regs rsp + 8 + 8) (frame c) i.balanced (omega arith)
            at.1.1) in
      let back =
        return_from-Returned c3 c.rip c.cs c.rflags (c.regs rsp) c.ss (omega (arith, top)) words in
      let out = exec-append callee (enclose saved body) (add_to rsp 16 ∷ iretq ∷ []) c1 w in
      subst (IsHandled (pushed_words saved c1.regs (a ∷ b ∷ frame c)) c w) (sym out) (record {
        transparent =
            Returned-IsTransparent c c3 back
              (λ r small ne. set_reg-other r rsp _ c2 ne ∙ i.restored r small ne ∙ others r ne)
              (i.balanced.gs ∙ gs);
        called = i.called;
        pointed = i.pointed;
        world = i.world;
      })

  pub no_words :
      (c c1 : Cpu) (w : W)
      → KeepsCaller callee
      → 120 ≤ c1.regs rsp
      → c1.regs rsp + 40 ≤ 2 ^ 64
      → WordsAt c1.memory (c1.regs rsp) (frame c)
      → ((r : ℕ) → r ≢ rsp → c1.regs r ≡ c.regs r)
      → c1.kernel_gs ≡ c.kernel_gs
      → IsHandled
          (pushed_words saved c1.regs (frame c))
          c
          w
          (exec callee (enclose saved body ++ (iretq ∷ [])) c1 w)
  unfolding exec step
  no_words c c1 w keeps room le at others gs =
      let i = inner (frame c) c1 w keeps room (omega arith) at in
      let c2 = (exec callee (enclose saved body) c1 w).0 in
      let words : WordsAt c2.memory (c2.regs rsp) (frame c) =
        subst (λ (p : ℕ). WordsAt c2.memory p (frame c)) (sym i.balanced.top)
          (IsBalanced-WordsAt c1 c2 (c1.regs rsp) (frame c) i.balanced (omega arith) at) in
      let back =
        return_from-Returned c2 c.rip c.cs c.rflags (c.regs rsp) c.ss
          (omega (arith, i.balanced.top)) words in
      let out = exec-append callee (enclose saved body) (iretq ∷ []) c1 w in
      subst (IsHandled (pushed_words saved c1.regs (frame c)) c w) (sym out) (record {
        transparent =
            Returned-IsTransparent c c2 back (λ r small ne. i.restored r small ne ∙ others r ne)
              (i.balanced.gs ∙ gs);
        called = i.called;
        pointed = i.pointed;
        world = i.world;
      })
