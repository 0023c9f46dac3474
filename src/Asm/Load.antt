-- ===== src/Asm/Load.antt =====
-- The second half of `switch_context`: the state of the process that goes on.
use zer0s.Prelude.{
  ℕ, ◌+◌, ◌-◌, ◌^◌, ◌≤◌, ◌<◌, ◌≡◌, ◌⊎◌, refl, ap, ◌∙◌, arith, Bool, List, [], ◌∷◌, ◌==◌,
  if◌then◌else◌, false, u64,
}
use zer0s.Asm.{
  Cpu, push_value, step, exec, rax, rbx, rcx, rdx, rsi, rdi, rbp, rsp, r8, r9, r10, r11, r12, r13,
  r14, r15, set_reg,
}
use zer0s.Asm.Stack.{pushed_memory, pushed_top}
use zer0s.Asm.Words.{WordsAt, push_value-WordsAt}
use zer0s.Asm.Switch.{load_context}
use zer0s.Asm.Save.{Outside, values}

-- The words of a structure at these offsets.
abbrev pub fields : (ℕ → ℕ) → ℕ → List ℕ → List ℕ
fields m p [] = []
fields m p (off ∷ offs) = m (p + off) ∷ fields m p offs

abbrev fields_u64 : (ℕ → ℕ) → ℕ → List ℕ → List ℕ
fields_u64 m p [] = []
fields_u64 m p (off ∷ offs) = m (u64 (p + off)) ∷ fields_u64 m p offs

abbrev AllIn : ℕ → List ℕ → Type 0
AllIn n [] = Unit
AllIn n (off ∷ offs) = (off < n) × AllIn n offs

fields_u64-eq :
    (m : ℕ → ℕ) (p n : ℕ) (offs : List ℕ)
    → p + n ≤ 2 ^ 64
    → AllIn n offs
    → fields_u64 m p offs ≡ fields m p offs
fields_u64-eq m p n [] le ok = refl
fields_u64-eq m p n (off ∷ offs) le ok =
    let e : u64 (p + off) ≡ p + off = omega (arith, le, ok.0) in
    rw e (ap (λ (vs : List ℕ). m (p + off) ∷ vs) (fields_u64-eq m p n offs le ok.1))

-- The registers that `load_context` takes from the structure, and where they stand in it.
abbrev pub loaded : List ℕ
loaded = rax ∷ rbx ∷ rcx ∷ rdx ∷ rbp ∷ r8 ∷ r9 ∷ r10 ∷ r11 ∷ r12 ∷ r13 ∷ r14 ∷ r15 ∷ []

abbrev pub offsets : List ℕ
offsets =
    0x00 ∷ 0x08 ∷ 0x10 ∷ 0x18 ∷ 0x30 ∷ 0x40 ∷ 0x48 ∷ 0x50 ∷ 0x58 ∷ 0x60 ∷ 0x68 ∷ 0x70 ∷ 0x78 ∷ []

-- The state at the `iretq`, with the structure at `new` and its `rsp` at `sp`: the registers, and
-- the five words that it returns to.
pub record IsLoaded (m : ℕ → ℕ) (new sp : ℕ) (out : Cpu) : Type 0 where
  pub registers : values out.regs loaded ≡ fields m new offsets
  pub source : out.regs rsi ≡ m (new + 0x20)
  pub destination : out.regs rdi ≡ m (m (new + 0x20) + 0x28)
  pub top : out.regs rsp ≡ sp - 16
  pub words :
      WordsAt out.memory
        (out.regs rsp)
        (m (new + 0x80) ∷ m (new + 0x88) ∷ m sp ∷ m (sp + 8) ∷ m (sp + 16) ∷ [])
  pub memory : (x : ℕ) → Outside x (sp - 16) 16 → out.memory x ≡ m x

-- The structure has no word in the two that are pushed, nor has the place that `rdi` is read from.
pub record HasRoom (m : ℕ → ℕ) (new sp : ℕ) : Type 0 where
  pub in_memory : new + 0x90 ≤ 2 ^ 64
  pub low : 16 ≤ sp
  pub high : sp + 40 ≤ 2 ^ 64
  pub apart : (new + 0x90 ≤ sp - 16) ⊎ (sp ≤ new)
  pub small : m (new + 0x20) + 0x28 < 2 ^ 64
  pub outside : Outside (m (new + 0x20) + 0x28) (sp - 16) 16

record Pushed2 (a b : ℕ) (c d : Cpu) : Type 0 where
  words :
      WordsAt d.memory (d.regs rsp) (
        b ∷ a ∷ c.memory (c.regs rsp) ∷ c.memory (c.regs rsp + 8) ∷ c.memory (c.regs rsp + 16) ∷ [])
  top : d.regs rsp ≡ c.regs rsp - 16
  same : (x : ℕ) → Outside x (c.regs rsp - 16) 16 → d.memory x ≡ c.memory x

push_value-Pushed2 :
    (a b : ℕ) (c : Cpu)
    → 16 ≤ c.regs rsp
    → c.regs rsp < 2 ^ 64
    → Pushed2 a b c (push_value b (push_value a c))
push_value-Pushed2 a b c low lt =
    let d = push_value a c in
    let sp = c.regs rsp in
    let top = pushed_top a c (omega arith) lt in
    let e : sp + 8 + 8 ≡ sp + 16 = omega arith in
    let vs = c.memory sp ∷ c.memory (sp + 8) ∷ c.memory (sp + 16) ∷ [] in
    record {
      words =
          push_value-WordsAt b d (a ∷ vs) (omega (arith, top)) (omega (arith, top))
            (push_value-WordsAt a c vs (omega arith) lt (refl, (refl, (ap c.memory e, tt))));
      top = pushed_top b d (omega (arith, top)) (omega (arith, top)) ∙ omega (arith, top);
      same = λ x out.
          (let p1 = pushed_memory a c x (omega arith) lt in
            let p2 = pushed_memory b d x (omega (arith, top)) (omega (arith, top)) in
            p2 ∙ ground (arith, top, out, p1, low));
    }

-- Behind the 13 loads and that of `rsp`.
abbrev took : Cpu → Cpu
took c = set_reg rsp (c.memory (u64 (c.regs rsi + 0x38))) (
    set_reg r15 (c.memory (u64 (c.regs rsi + 0x78))) (
      set_reg r14 (c.memory (u64 (c.regs rsi + 0x70))) (
        set_reg r13 (c.memory (u64 (c.regs rsi + 0x68))) (
          set_reg r12 (c.memory (u64 (c.regs rsi + 0x60))) (
            set_reg r11 (c.memory (u64 (c.regs rsi + 0x58))) (
              set_reg r10 (c.memory (u64 (c.regs rsi + 0x50))) (
                set_reg r9 (c.memory (u64 (c.regs rsi + 0x48))) (
                  set_reg r8 (c.memory (u64 (c.regs rsi + 0x40))) (
                    set_reg rbp (c.memory (u64 (c.regs rsi + 0x30))) (
                      set_reg rdx (c.memory (u64 (c.regs rsi + 0x18))) (
                        set_reg rcx (c.memory (u64 (c.regs rsi + 0x10))) (
                          set_reg rbx (c.memory (u64 (c.regs rsi + 0x08)))
                            (set_reg rax (c.memory (u64 (c.regs rsi + 0x00))) c)))))))))))))

abbrev flags_pushed : Cpu → Cpu
flags_pushed c = push_value (c.memory (u64 (c.regs rsi + 0x88))) (took c)

abbrev both_pushed : Cpu → Cpu
both_pushed c = push_value ((flags_pushed c).memory (u64 (c.regs rsi + 0x80))) (flags_pushed c)

abbrev before_return : Cpu → Cpu
before_return c =
    let d = both_pushed c in
    let source = d.memory (u64 (c.regs rsi + 0x20)) in
    set_reg rdi (d.memory (u64 (source + 0x28))) (set_reg rsi source d)

returned-registers :
    (c : Cpu)
    → c.regs rsi + 0x90 ≤ 2 ^ 64
    → values (before_return c).regs loaded ≡ fields c.memory (c.regs rsi) offsets
unfolding push_value
returned-registers c le = fields_u64-eq c.memory (c.regs rsi) 0x90 offsets le (omega arith)

-- A word of the structure is still there behind the two pushes.
record IsKept (c : Cpu) : Type 0 where
  words : WordsAt (before_return c).memory ((before_return c).regs rsp) (
      c.memory (c.regs rsi + 0x80)
      ∷ c.memory (c.regs rsi + 0x88)
      ∷ (let sp = c.memory (c.regs rsi + 0x38) in
          c.memory sp ∷ c.memory (sp + 8) ∷ c.memory (sp + 16) ∷ []))
  top : (before_return c).regs rsp ≡ c.memory (c.regs rsi + 0x38) - 16
  source : (both_pushed c).memory (u64 (c.regs rsi + 0x20)) ≡ c.memory (c.regs rsi + 0x20)
  destination : (before_return c).regs rdi ≡ c.memory (c.memory (c.regs rsi + 0x20) + 0x28)
  memory :
      (x : ℕ)
      → Outside x (c.memory (c.regs rsi + 0x38) - 16) 16
      → (both_pushed c).memory x ≡ c.memory x

before_return-IsKept :
    (c : Cpu) → HasRoom c.memory (c.regs rsi) (c.memory (c.regs rsi + 0x38)) → IsKept c
before_return-IsKept c room =
    let new = c.regs rsi in
    let sp = c.memory (new + 0x38) in
    let le = room.in_memory in
    let e38 : u64 (new + 0x38) ≡ new + 0x38 = omega (arith, le) in
    let e20 : u64 (new + 0x20) ≡ new + 0x20 = omega (arith, le) in
    let e28 : u64 (c.memory (new + 0x20) + 0x28) ≡ c.memory (new + 0x20) + 0x28 =
      omega (arith, room.small) in
    let e80 : u64 (new + 0x80) ≡ new + 0x80 = omega (arith, le) in
    let e88 : u64 (new + 0x88) ≡ new + 0x88 = omega (arith, le) in
    let a = c.memory (u64 (new + 0x88)) in
    let b = (flags_pushed c).memory (u64 (new + 0x80)) in
    let top : (took c).regs rsp ≡ sp = ap c.memory e38 in
    let p =
      push_value-Pushed2 a b (took c) (omega (arith, top, room.low))
        (omega (arith, top, room.high)) in
    let b_apart : ((took c).regs rsp - 8 == u64 (new + 0x80)) ≡ false =
      ground (arith, top, e80, room.apart, room.low) in
    let b_kept : b ≡ c.memory (new + 0x80) =
      pushed_memory a (took c) (u64 (new + 0x80)) (omega (arith, top, room.low))
        (omega (arith, top, room.high))
      ∙ ap (λ (q : Bool). if q then a else c.memory (u64 (new + 0x80))) b_apart
      ∙ ap c.memory e80 in
    let source : (both_pushed c).memory (u64 (new + 0x20)) ≡ c.memory (new + 0x20) =
      p.same (u64 (new + 0x20)) (omega (arith, top, e20, room.apart, room.low)) ∙ ap c.memory e20 in
    record {
      words = (
        p.words.0 ∙ b_kept,
        (
          p.words.1.0 ∙ ap c.memory e88,
          (
            p.words.1.1.0 ∙ ap c.memory top,
            (
              p.words.1.1.1.0 ∙ ap (λ (q : ℕ). c.memory (q + 8)) top,
              (p.words.1.1.1.1.0 ∙ ap (λ (q : ℕ). c.memory (q + 16)) top, tt),
            ),
          ),
        ),
      );
      top = p.top ∙ omega (arith, top);
      source = source;
      destination =
          ap (λ (q : ℕ). (both_pushed c).memory (u64 (q + 0x28))) source
          ∙ p.same (u64 (c.memory (new + 0x20) + 0x28)) (omega (arith, top, e28, room.outside))
          ∙ ap c.memory e28;
      memory = λ x out. p.same x (omega (arith, top, out));
    }

module _ {W : Type 0} (callee : Cpu → W → Cpu × W) where
  pub load_context-IsLoaded :
      (c : Cpu) (w : W)
      → HasRoom c.memory (c.regs rsi) (c.memory (c.regs rsi + 0x38))
      → IsLoaded c.memory
          (c.regs rsi)
          (c.memory (c.regs rsi + 0x38))
          (exec callee load_context c w).0
  unfolding load_context exec step
  load_context-IsLoaded c w room =
      let k = before_return-IsKept c room in
      record {
        registers = returned-registers c room.in_memory;
        source = k.source;
        destination = k.destination;
        top = k.top;
        words = k.words;
        memory = λ x out. k.memory x out;
      }
