-- ===== src/Asm/Served.antt =====
-- The interrupt entries of isr.asm and isr_default.asm, from the processor to the handler in C and
-- back.
use zer0s.Prelude.{
  ℕ, ◌^◌, ◌≤◌, ◌<◌, ◌≡◌, refl, ◌∙◌, arith, Bool, true, false, ◌||◌, ◌==◌, Bool-cases, inl, inr,
  List, [], ◌∷◌, ◌++◌, if◌then◌else◌,
}
use zer0s.Interrupts.Isr.{Registers}
use zer0s.Asm.{Cpu, add_to, iretq, push_value, step, exec, rsp, rdi}
use zer0s.Asm.Stack.{enclose, pushed_reg}
use zer0s.Asm.Words.{WordsAt, WordsAt-get_or, pushed_words}
use zer0s.Asm.Entry.{
  interrupt, isr_common, irq_common, isr_noerrcode, isr_errcode, irq, isr_default, has_errcode,
  pushes_code, exception, isr, read_registers,
}
use zer0s.Asm.Transparent.{frame, interrupt-IsEntered, entered-push, IsTransparent, KeepsCaller}
use zer0s.Asm.Common.{saved, body, IsHandled, two_words, no_words, any_words}

-- What the handler in C should see of an interrupt of `c`.
abbrev pub registers : (int_no err_code : ℕ) → Cpu → Registers
registers int_no err_code c = record {
  int_no = int_no;
  err_code = err_code;
  rip = c.rip;
  cs = c.cs;
  rflags = c.rflags;
  rsp = c.regs rsp;
  ss = c.ss;
}

-- With a word too many below the two that the stub pushes, each field is the one before.
abbrev pub shifted : (int_no zero_code err_code : ℕ) → Cpu → Registers
shifted int_no zero_code err_code c = record {
  int_no = int_no;
  err_code = zero_code;
  rip = err_code;
  cs = c.rip;
  rflags = c.cs;
  rsp = c.rflags;
  ss = c.regs rsp;
}

-- The exceptions for which the processor pushes an error code that the file does not expect.
unfoldable pub lacks_entry : ℕ → Bool
lacks_entry n = (n == 21) || (n == 29) || (n == 30)

-- What the handler in C is told of an exception.
abbrev pub reported : (n err_code : ℕ) → Cpu → Registers
reported n err_code c =
    if lacks_entry n
    then shifted n 0 err_code c
    else registers n (if pushes_code n then err_code else 0) c

pub reported-int_no : (n err_code : ℕ) (c : Cpu) → (reported n err_code c).int_no ≡ n
reported-int_no n err_code c = elim (Bool-cases (lacks_entry n)) [
  | inl e ↦ rw e refl
  | inr e ↦ rw e refl
]

lacks_entry-codes :
    (n : ℕ)
    → (lacks_entry n ≡ true → pushes_code n ≡ true)
      × (lacks_entry n ≡ true → has_errcode n ≡ false)
      × (lacks_entry n ≡ false → has_errcode n ≡ pushes_code n)
unfolding lacks_entry pushes_code has_errcode
lacks_entry-codes n = (λ e. ground (arith, e), λ e. ground (arith, e), λ e. ground (arith, e))

read_registers-words :
    (memory : ℕ → ℕ) (p : ℕ) (regs : ℕ → ℕ) (a b ip segment flags sp stack : ℕ) (more : List ℕ)
    → WordsAt memory p (pushed_words saved regs (a ∷ b ∷ ip ∷ segment ∷ flags ∷ sp ∷ stack ∷ more))
    → read_registers memory p ≡ record {
      int_no = a;
      err_code = b;
      rip = ip;
      cs = segment;
      rflags = flags;
      rsp = sp;
      ss = stack;
    }
unfolding read_registers
read_registers-words memory p regs a b ip segment flags sp stack more at =
    let word = λ (i : ℕ).
      WordsAt-get_or memory p
        (pushed_words saved regs (a ∷ b ∷ ip ∷ segment ∷ flags ∷ sp ∷ stack ∷ more)) i at in
    rw
      (
        word 15 (omega arith),
        word 16 (omega arith),
        word 17 (omega arith),
        word 18 (omega arith),
        word 19 (omega arith),
        word 20 (omega arith),
        word 21 (omega arith),
      )
      refl

module _ {W : Type 0} (callee : Cpu → W → Cpu × W) where
  -- The interrupted code goes on as it was, and the handler in C was called once, with a pointer to
  -- these registers.
  pub record IsServed (seen : Registers) (c : Cpu) (w : W) (out : Cpu × W) : Type 0 where
    pub transparent : IsTransparent c out.0
    pub called : Cpu
    pub pointed : read_registers called.memory (called.regs rdi) ≡ seen
    pub world : out.1 ≡ (callee called w).1

  IsHandled-IsServed :
      (a b : ℕ) (c c1 : Cpu) (w : W) {out : Cpu × W}
      → IsHandled callee (pushed_words saved c1.regs (a ∷ b ∷ frame c)) c w out
      → IsServed (registers a b c) c w out
  IsHandled-IsServed a b c c1 w h = record {
    transparent = h.transparent;
    called = h.called;
    pointed =
        read_registers-words h.called.memory (h.called.regs rdi) c1.regs a b c.rip c.cs c.rflags
          (c.regs rsp) c.ss [] h.pointed;
    world = h.world;
  }

  -- The two words that the stubs see to: the error code and the number.
  serve :
      (a b top : ℕ) (c : Cpu) (w : W)
      → KeepsCaller callee
      → 176 ≤ top
      → top < 2 ^ 64
      → IsServed (registers a b c) c w (
          exec callee
            (enclose saved body ++ (add_to rsp 16 ∷ iretq ∷ []))
            (push_value a (push_value b (interrupt top c)))
            w)
  serve a b top c w keeps room lt =
      let c0 = interrupt top c in
      let c1 = push_value b c0 in
      let c2 = push_value a c1 in
      let e = interrupt-IsEntered top c (omega arith) lt in
      let p1 = entered-push b c0 40 top (frame c) e.at (omega arith) lt e.words in
      let p2 = entered-push a c1 48 top (b ∷ frame c) p1.0 (omega arith) lt p1.1 in
      IsHandled-IsServed a b c c2 w (
        two_words callee a b c c2 w keeps (omega (arith, p2.0)) (omega (arith, p2.0)) p2.1
          (λ r ne. pushed_reg a c1 r ne ∙ pushed_reg b c0 r ne ∙ e.others r ne)
          (unfold push_value in e.gs))

  -- An interrupt line's entry, on a stack with room, and a handler that keeps its caller's stack:
  -- the interrupted code goes on with all 16 registers, at the same place with the same flags, and
  -- the handler was called once with a pointer to its registers, in which the interrupt number is
  -- the vector and the error code 0.
  pub irq-IsServed :
      (vector top : ℕ) (c : Cpu) (w : W)
      → KeepsCaller callee
      → 176 ≤ top
      → top < 2 ^ 64
      → IsServed (registers vector 0 c) c w (exec callee (irq vector) (interrupt top c) w)
  unfolding irq irq_common exec step
  irq-IsServed vector top c w keeps room lt = serve vector 0 top c w keeps room lt

  -- The handler in C was called once, with a pointer to these registers.
  pub record IsGiven (seen : Registers) (w out : W) : Type 0 where
    pub called : Cpu
    pub pointed : read_registers called.memory (called.regs rdi) ≡ seen
    pub world : out ≡ (callee called w).1

  give :
      (a b top : ℕ) (c : Cpu) (w : W)
      → KeepsCaller callee
      → 184 ≤ top
      → top < 2 ^ 64
      → IsGiven
          (registers a b c)
          w
          (exec callee
            (enclose saved body ++ (add_to rsp 16 ∷ iretq ∷ []))
            (push_value a (push_value b (interrupt top c)))
            w).1
  give a b top c w keeps room lt =
      let h = serve a b top c w keeps (omega (arith, room)) lt in
      record { called = h.called; pointed = h.pointed; world = h.world }

  -- With a word too many below the two.
  give_shifted :
      (a b err_code top : ℕ) (c : Cpu) (w : W)
      → KeepsCaller callee
      → 184 ≤ top
      → top < 2 ^ 64
      → IsGiven
          (shifted a b err_code c)
          w
          (exec callee
            (enclose saved body ++ (add_to rsp 16 ∷ iretq ∷ []))
            (push_value a (push_value b (push_value err_code (interrupt top c))))
            w).1
  give_shifted a b err_code top c w keeps room lt =
      let c0 = interrupt top c in
      let c1 = push_value err_code c0 in
      let c2 = push_value b c1 in
      let c3 = push_value a c2 in
      let e = interrupt-IsEntered top c (omega arith) lt in
      let p1 = entered-push err_code c0 40 top (frame c) e.at (omega arith) lt e.words in
      let p2 = entered-push b c1 48 top (err_code ∷ frame c) p1.0 (omega arith) lt p1.1 in
      let p3 = entered-push a c2 56 top (b ∷ err_code ∷ frame c) p2.0 (omega arith) lt p2.1 in
      let h =
        any_words callee (a ∷ b ∷ err_code ∷ frame c) c3 w keeps (omega (arith, p3.0))
          (omega (arith, p3.0)) p3.1 in
      record {
        called = h.called;
        pointed =
            read_registers-words h.called.memory (h.called.regs rdi) c3.regs a b err_code c.rip c.cs
              c.rflags (c.regs rsp) (c.ss ∷ []) h.pointed;
        world = h.world;
      }

  pub isr-IsGiven :
      (n err_code top : ℕ) (c : Cpu) (w : W)
      → KeepsCaller callee
      → 184 ≤ top
      → top < 2 ^ 64
      → IsGiven (reported n err_code c) w (exec callee (isr n) (exception n err_code top c) w).1
  unfolding isr isr_noerrcode isr_errcode isr_common exec step exception
  isr-IsGiven n err_code top c w keeps room lt = elim (Bool-cases (lacks_entry n)) [
    | inl shift ↦
        (let push : pushes_code n ≡ true = (lacks_entry-codes n).0 shift in
          let none : has_errcode n ≡ false = (lacks_entry-codes n).1 shift in
          rw (shift, push, none) (give_shifted n 0 err_code top c w keeps room lt))
    | inr fits ↦
        (let same : has_errcode n ≡ pushes_code n = (lacks_entry-codes n).2 fits in
          elim (Bool-cases (pushes_code n)) [
            | inl push ↦ rw (fits, same, push) (give n err_code top c w keeps room lt)
            | inr none ↦ rw (fits, same, none) (give n 0 top c w keeps room lt)
          ])
  ]

  -- The default entry also lets the interrupted code go on. But it pushes neither word, so what the
  -- handler takes for the interrupt number is the place that was interrupted.
  pub isr_default-misread :
      (top : ℕ) (c : Cpu) (w : W)
      → KeepsCaller callee
      → 160 ≤ top
      → top < 2 ^ 64
      → let out = exec callee isr_default (interrupt top c) w in
        IsTransparent c out.0
        × ((called : Cpu) × ((read_registers called.memory (called.regs rdi)).int_no ≡ c.rip)
            × ((read_registers called.memory (called.regs rdi)).err_code ≡ c.cs)
            × (out.1 ≡ (callee called w).1))
  unfolding isr_default read_registers exec step
  isr_default-misread top c w keeps room lt =
      let c0 = interrupt top c in
      let e = interrupt-IsEntered top c (omega arith) lt in
      let h : IsHandled callee (pushed_words saved c0.regs (frame c)) c w
          (exec callee (enclose saved body ++ (iretq ∷ [])) c0 w) =
        no_words callee c c0 w keeps (omega (arith, e.at)) (omega (arith, e.at)) e.words e.others
          e.gs in
      let word = λ (i : ℕ).
        WordsAt-get_or h.called.memory (h.called.regs rdi) (pushed_words saved c0.regs (frame c)) i
          h.pointed in
      (h.transparent, (h.called, word 15 (omega arith), word 16 (omega arith), h.world))
