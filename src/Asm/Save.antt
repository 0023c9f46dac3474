-- ===== src/Asm/Save.antt =====
-- The first half of `switch_context`: the registers in the `proc_context_t` of the process that
-- stops.
use zer0s.Prelude.{
  ℕ, ◌+◌, ◌*◌, ◌^◌, ◌≤◌, ◌<◌, ◌≡◌, ◌≢◌, ◌⊎◌, inl, refl, sym, ap, ◌∙◌, arith, List, [], ◌∷◌, ◌++◌,
  length, ◌==◌, false, store, u64,
}
use mathlib.Core.Path.{subst}
use zer0s.Asm.{
  Cpu, Instr, load, save, step, exec, rax, rbx, rcx, rdx, rsi, rdi, rbp, rsp, r8, r9, r10, r11, r12,
  r13, r14, r15,
}
use zer0s.Asm.Stack.{exec-append}
use zer0s.Asm.Words.{WordsAt}
use zer0s.Asm.Switch.{save_context}

abbrev pub write_words : (ℕ → ℕ) → ℕ → List ℕ → (ℕ → ℕ)
write_words m p [] = m
write_words m p (v ∷ vs) = write_words (store m p v) (p + 8) vs

-- Outside a range of addresses.
abbrev pub Outside : (a p n : ℕ) → Type 0
Outside a p n = (a < p) ⊎ (p + n ≤ a)

write_words-other :
    (m : ℕ → ℕ) (p : ℕ) (vs : List ℕ) (a : ℕ)
    → Outside a p (8 * length vs)
    → write_words m p vs a ≡ m a
write_words-other m p [] a out = refl
write_words-other m p (v ∷ vs) a out =
    write_words-other (store m p v) (p + 8) vs a (omega (arith, out)) ∙ ground (arith, out)

pub write_words-WordsAt : (m : ℕ → ℕ) (p : ℕ) (vs : List ℕ) → WordsAt (write_words m p vs) p vs
write_words-WordsAt m p [] = tt
write_words-WordsAt m p (v ∷ vs) = (
  write_words-other (store m p v) (p + 8) vs p (inl (omega arith)) ∙ ground arith,
  write_words-WordsAt (store m p v) (p + 8) vs,
)

saves : ℕ → List ℕ → List Instr
saves off [] = []
saves off (r ∷ rs) = save rdi off r ∷ saves (off + 8) rs

abbrev pub values : (ℕ → ℕ) → List ℕ → List ℕ
values regs [] = []
values regs (r ∷ rs) = regs r ∷ values regs rs

abbrev pub general : List ℕ
general =
    rax ∷ rbx ∷ rcx ∷ rdx ∷ rsi ∷ rdi ∷ rbp ∷ rsp ∷ r8 ∷ r9 ∷ r10 ∷ r11 ∷ r12 ∷ r13 ∷ r14 ∷ r15 ∷ []

-- The registers in the order of the structure, the word at the top of the stack, which is the
-- address behind the call, in the place of `rip`, and the word above it in that of `rflags`.
abbrev pub context : Cpu → List ℕ
context c = values c.regs general ++ (c.memory (c.regs rsp) ∷ c.memory (c.regs rsp + 8) ∷ [])

write_words-append :
    (m : ℕ → ℕ) (p : ℕ) (vs : List ℕ) (a b : ℕ)
    → write_words m p (vs ++ (a ∷ b ∷ []))
      ≡ (let q = p + 8 * length vs in store (store (write_words m p vs) q a) (q + 8) b)
write_words-append m p [] a b = let e : p ≡ p + 8 * 0 = omega arith in rw (sym e) refl
write_words-append m p (v ∷ vs) a b =
    let e : p + 8 + 8 * length vs ≡ p + 8 * length (v ∷ vs) = omega arith in
    write_words-append (store m p v) (p + 8) vs a b ∙ rw e refl

module _ {W : Type 0} (callee : Cpu → W → Cpu × W) where
  exec-saves :
      (off : ℕ) (rs : List ℕ) (c : Cpu) (w : W)
      → c.regs rdi + off + 8 * length rs ≤ 2 ^ 64
      → exec callee (saves off rs) c w
        ≡ (record c { memory = write_words c.memory (c.regs rdi + off) (values c.regs rs) }, w)
  unfolding exec step saves
  exec-saves off [] c w le = refl
  exec-saves off (r ∷ rs) c w le =
      let here : u64 (c.regs rdi + off) ≡ c.regs rdi + off = omega (arith, le) in
      let next : c.regs rdi + (off + 8) ≡ c.regs rdi + off + 8 = omega arith in
      exec-saves (off + 8) rs
        (record c { memory = store c.memory (u64 (c.regs rdi + off)) (c.regs r) }) w
        (omega (arith, le))
      ∙ rw (here, next) refl

  pub save_context-eq :
      (c : Cpu) (w : W)
      → c.regs rdi + 0x90 ≤ 2 ^ 64
      → c.regs rsp + 16 ≤ 2 ^ 64
      → Outside (c.regs rsp) (c.regs rdi) 0x90
      → Outside (c.regs rsp + 8) (c.regs rdi) 0x90
      → exec callee save_context c w ≡ (
        record c {
          regs = store (store c.regs rax (c.memory (c.regs rsp))) rax (c.memory (c.regs rsp + 8));
          memory = write_words c.memory (c.regs rdi) (context c);
        },
        w,
      )
  unfolding save_context exec step saves
  save_context-eq c w le room out0 out8 =
      let old = c.regs rdi in
      let sp = c.regs rsp in
      let tail = load rax rsp 0 ∷ save rdi 0x80 rax ∷ load rax rsp 8 ∷ save rdi 0x88 rax ∷ [] in
      let m1 = write_words c.memory (old + 0) (values c.regs general) in
      let p0 : old + 0 ≡ old = omega arith in
      let s0 : u64 (sp + 0) ≡ sp = omega (arith, room) in
      let s8 : u64 (sp + 8) ≡ sp + 8 = omega (arith, room) in
      let k0 : u64 (old + 0x80) ≡ old + 0x80 = omega (arith, le) in
      let k8 : u64 (old + 0x88) ≡ old + 0x80 + 8 = omega (arith, le) in
      let ret : m1 sp ≡ c.memory sp =
        write_words-other c.memory (old + 0) (values c.regs general) sp (omega (arith, out0)) in
      let above : m1 (sp + 8) ≡ c.memory (sp + 8) =
        write_words-other c.memory (old + 0) (values c.regs general) (sp + 8)
          (omega (arith, out8)) in
      let ne : (old + 0x80 == sp + 8) ≡ false = ground (arith, out8) in
      exec-append callee (saves 0 general) tail c w
      ∙ ap (λ (o : Cpu × W). exec callee tail o.0 o.1)
          (exec-saves 0 general c w (omega (arith, le)))
      ∙ (rw (s0, s8, k0, k8, ne, ret, above, p0)
          (ap
            (λ (m : ℕ → ℕ). (
              record c {
                regs = store (store c.regs rax (c.memory sp)) rax (c.memory (sp + 8));
                memory = m;
              },
              w,
            ))
            (sym (
              write_words-append c.memory old (values c.regs general) (c.memory sp)
                (c.memory (sp + 8))))))

  -- What it leaves: the context, and everything else but `rax` and the context's place.
  pub record IsSaved (c : Cpu) (w : W) (out : Cpu × W) : Type 0 where
    pub words : WordsAt out.0.memory (c.regs rdi) (context c)
    pub memory : (a : ℕ) → Outside a (c.regs rdi) 0x90 → out.0.memory a ≡ c.memory a
    pub registers : (r : ℕ) → r ≢ rax → out.0.regs r ≡ c.regs r
    pub world : out.1 ≡ w

  pub save_context-IsSaved :
      (c : Cpu) (w : W)
      → c.regs rdi + 0x90 ≤ 2 ^ 64
      → c.regs rsp + 16 ≤ 2 ^ 64
      → Outside (c.regs rsp) (c.regs rdi) 0x90
      → Outside (c.regs rsp + 8) (c.regs rdi) 0x90
      → IsSaved c w (exec callee save_context c w)
  save_context-IsSaved c w le room out0 out8 =
      subst (IsSaved c w) (sym (save_context-eq c w le room out0 out8)) (record {
        words = write_words-WordsAt c.memory (c.regs rdi) (context c);
        memory = λ a out. write_words-other c.memory (c.regs rdi) (context c) a out;
        registers = λ r ne. ground (arith, ne);
        world = refl;
      })
