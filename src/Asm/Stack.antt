-- ===== src/Asm/Stack.antt =====
-- Code between pushes and pops of the same registers.
use mathlib.Core.Path.{subst}
use zer0s.Prelude.{
  ℕ, suc, ◌+◌, ◌-◌, ◌*◌, ◌^◌, ◌≤◌, ◌<◌, ◌≡◌, ◌≢◌, inl, inr, refl, sym, ap, ◌∙◌, arith, Bool,
  Bool-cases, true, false, ◌||◌, List, [], ◌∷◌, ◌++◌, length, ◌==◌, if◌then◌else◌, store, u64,
}
use zer0s.Asm.{Cpu, Instr, push, pop, rsp, push_value, step, exec}

-- The stack is as before: its top, and every word from there up.
pub record IsBalanced (c c' : Cpu) : Type 0 where
  pub top : c'.regs rsp ≡ c.regs rsp
  pub above : (a : ℕ) → c.regs rsp ≤ a → c'.memory a ≡ c.memory a
  pub gs : c'.kernel_gs ≡ c.kernel_gs

abbrev pub has : ℕ → List ℕ → Bool
has r [] = false
has r (s ∷ rs) = (r == s) || has r rs

abbrev pub NoRsp : List ℕ → Type 0
NoRsp [] = Unit
NoRsp (r ∷ rs) = (r ≢ rsp) × NoRsp rs

-- The registers are pushed in their order, and popped in the opposite one behind the body.
abbrev pub enclose : List ℕ → List Instr → List Instr
enclose [] body = body
enclose (r ∷ rs) body = push r ∷ (enclose rs body ++ (pop r ∷ []))

unfoldable pub push_all : List ℕ → Cpu → Cpu
push_all [] c = c
push_all (r ∷ rs) c = push_all rs (push_value (c.regs r) c)

-- The top behind a push.
pub pushed_top :
    (v : ℕ) (c : Cpu)
    → 8 ≤ c.regs rsp
    → c.regs rsp < 2 ^ 64
    → (push_value v c).regs rsp ≡ c.regs rsp - 8
unfolding push_value
pushed_top v c room lt = omega arith

pub pushed_memory :
    (v : ℕ) (c : Cpu) (a : ℕ)
    → 8 ≤ c.regs rsp
    → c.regs rsp < 2 ^ 64
    → (push_value v c).memory a ≡ (if c.regs rsp - 8 == a then v else c.memory a)
unfolding push_value
pushed_memory v c a room lt =
    let e : u64 (c.regs rsp + 2 ^ 64 - 8) ≡ c.regs rsp - 8 = omega arith in
    ap (λ (t : ℕ). if t == a then v else c.memory a) e

pub pushed_reg : (v : ℕ) (c : Cpu) (r : ℕ) → r ≢ rsp → (push_value v c).regs r ≡ c.regs r
unfolding push_value
pushed_reg v c r ne = ground (arith, ne)

has-NoRsp : (s : ℕ) (rs : List ℕ) → NoRsp rs → has s rs ≡ true → s ≢ rsp
has-NoRsp s [] ok h = cc
has-NoRsp s (r ∷ rs) ok h = elim (Bool-cases (s == r)) [
  | inl e ↦ λ top. ok.0 (ground arith)
  | inr ne ↦ has-NoRsp s rs ok.1 (ground (arith, ne))
]

-- A pop of `r` into what a balanced run left of a push of `r`.
popped : ℕ → Cpu → Cpu
popped r c = record c {
  regs = store (store c.regs rsp (u64 (c.regs rsp + 8))) r (c.memory (c.regs rsp));
}

record Unwound (r : ℕ) (c c2 c3 : Cpu) : Type 0 where
  balanced : IsBalanced c c3
  self : c3.regs r ≡ c.regs r
  others : (s : ℕ) → s ≢ r → s ≢ rsp → c3.regs s ≡ c2.regs s

popped-Unwound :
    (r : ℕ) (c c2 : Cpu)
    → r ≢ rsp
    → 8 ≤ c.regs rsp
    → c.regs rsp < 2 ^ 64
    → IsBalanced (push_value (c.regs r) c) c2
    → Unwound r c c2 (popped r c2)
unfolding popped
popped-Unwound r c c2 ne room lt is =
    let top = pushed_top (c.regs r) c room lt in
    let at : c2.regs rsp ≡ c.regs rsp - 8 = is.top ∙ top in
    let kept = λ (a : ℕ) (le : c.regs rsp - 8 ≤ a).
      is.above a (omega (arith, top)) ∙ pushed_memory (c.regs r) c a room lt in
    record {
      balanced = record {
        top = ground (arith, at, ne);
        above = λ a le. kept a (omega arith) ∙ ground arith;
        gs = is.gs ∙ unfold push_value in refl;
      };
      self = ground (arith, at, kept (c2.regs rsp) (omega (arith, at)));
      others = λ s ne_r ne_top. ground (arith, ne_r, ne_top);
    }

module _ {W : Type 0} (callee : Cpu → W → Cpu × W) where
  pub exec-append :
      (p q : List Instr) (c : Cpu) (w : W)
      → exec callee (p ++ q) c w ≡ exec callee q (exec callee p c w).0 (exec callee p c w).1
  unfolding exec
  exec-append [] q c w = refl
  exec-append (i ∷ p) q c w = exec-append p q (step callee i c w).0 (step callee i c w).1

  -- What enclosed code leaves.
  pub record Enclosed (rs : List ℕ) (body : List Instr) (c : Cpu) (w : W) : Type 0 where
    pub balanced : IsBalanced c (exec callee (enclose rs body) c w).0
    pub restored :
        (r : ℕ) → has r rs ≡ true → (exec callee (enclose rs body) c w).0.regs r ≡ c.regs r
    pub others :
        (r : ℕ)
        → has r rs ≡ false
        → r ≢ rsp
        → (exec callee (enclose rs body) c w).0.regs r
          ≡ (exec callee body (push_all rs c) w).0.regs r
    pub world : (exec callee (enclose rs body) c w).1 ≡ (exec callee body (push_all rs c) w).1

  -- The body leaves the stack as it is, from a given top.
  abbrev pub KeepsStack : List Instr → ℕ → Type 0
  KeepsStack body top = (c : Cpu) (w : W) → c.regs rsp ≡ top → IsBalanced c (exec callee body c w).0

  enclose-suc :
      (r : ℕ) (rs : List ℕ) (body : List Instr) (c : Cpu) (w : W)
      → let inner = exec callee (enclose rs body) (push_value (c.regs r) c) w in
        exec callee (enclose (r ∷ rs) body) c w ≡ (popped r inner.0, inner.1)
  unfolding exec step popped
  enclose-suc r rs body c w = exec-append (enclose rs body) (pop r ∷ []) (push_value (c.regs r) c) w

  pub enclose-Enclosed :
      (rs : List ℕ) (body : List Instr) (c : Cpu) (w : W)
      → NoRsp rs
      → 8 * length rs ≤ c.regs rsp
      → c.regs rsp < 2 ^ 64
      → KeepsStack body (c.regs rsp - 8 * length rs)
      → Enclosed rs body c w
  unfolding push_all
  enclose-Enclosed [] body c w ok room lt keeps = record {
    balanced = keeps c w (omega arith);
    restored = λ r in_rs. cc;
    others = λ r out ne. refl;
    world = refl;
  }
  enclose-Enclosed (r ∷ rs) body c w ok room lt keeps =
      let c1 = push_value (c.regs r) c in
      let top = pushed_top (c.regs r) c (omega arith) lt in
      let same : c.regs rsp - 8 * suc (length rs) ≡ c1.regs rsp - 8 * length rs =
        omega (arith, top) in
      let inner : Enclosed rs body c1 w =
        enclose-Enclosed rs body c1 w ok.1 (omega (arith, top)) (omega (arith, top))
          (subst (KeepsStack body) same keeps) in
      let out = enclose-suc r rs body c w in
      let last =
        popped-Unwound r c (exec callee (enclose rs body) c1 w).0 ok.0 (omega arith) lt
          inner.balanced in
      record {
        balanced = subst (λ (o : Cpu × W). IsBalanced c o.0) (sym out) last.balanced;
        restored = λ s in_rs. ap (λ (o : Cpu × W). o.0.regs s) out ∙ elim (Bool-cases (s == r)) [
          | inl e ↦
              (let same : s ≡ r = ground arith in
                subst
                  (λ (x : ℕ). (popped r (exec callee (enclose rs body) c1 w).0).regs x ≡ c.regs x)
                  (sym same) last.self)
          | inr ne ↦
              (let later : has s rs ≡ true = ground (arith, ne) in
                let no_top : s ≢ rsp = has-NoRsp s rs ok.1 later in
                last.others s (ground (arith, ne)) no_top
                ∙ inner.restored s later
                ∙ pushed_reg (c.regs r) c s no_top)
        ];
        others = λ s out_rs ne.
            ap (λ (o : Cpu × W). o.0.regs s) out
            ∙ last.others s (ground (arith, out_rs)) ne
            ∙ inner.others s (ground (arith, out_rs)) ne;
        world = ap (λ (o : Cpu × W). o.1) out ∙ inner.world;
      }
