-- ===== src/Asm/Words.antt =====
-- Words on the stack.
use mathlib.Core.Path.{subst}
use zer0s.Prelude.{
  ℕ, zero, suc, ◌+◌, ◌-◌, ◌*◌, ◌^◌, ◌≤◌, ◌<◌, ◌≡◌, ◌≢◌, refl, ap, ◌∙◌, arith, List, [], ◌∷◌, length,
  get_or, u64,
}
use zer0s.Asm.{Cpu, rsp, push_value, return_from}
use zer0s.Asm.Stack.{IsBalanced, NoRsp, push_all, pushed_top, pushed_memory, pushed_reg}

-- The 64-bit words from an address on.
abbrev pub WordsAt : (ℕ → ℕ) → ℕ → List ℕ → Type 0
WordsAt memory p [] = Unit
WordsAt memory p (v ∷ vs) = (memory p ≡ v) × WordsAt memory (p + 8) vs

-- One of the words.
pub WordsAt-get_or :
    (memory : ℕ → ℕ) (p : ℕ) (vs : List ℕ) (i : ℕ)
    → WordsAt memory p vs
    → i < length vs
    → memory (p + 8 * i) ≡ get_or vs i 0
WordsAt-get_or memory p [] i at lt = absurd (omega arith)
WordsAt-get_or memory p (v ∷ vs) zero at lt =
    let e : p + 8 * 0 ≡ p = omega arith in ap memory e ∙ at.0
WordsAt-get_or memory p (v ∷ vs) (suc i) at lt =
    let e : p + 8 * suc i ≡ p + 8 + 8 * i = omega arith in
    ap memory e ∙ WordsAt-get_or memory (p + 8) vs i at.1 (omega arith)

pub WordsAt-frame :
    (m m' : ℕ → ℕ) (p q : ℕ) (vs : List ℕ)
    → q ≤ p
    → ((a : ℕ) → q ≤ a → m' a ≡ m a)
    → WordsAt m p vs
    → WordsAt m' p vs
WordsAt-frame m m' p q [] le same at = tt
WordsAt-frame m m' p q (v ∷ vs) le same at =
    (same p le ∙ at.0, WordsAt-frame m m' (p + 8) q vs (omega arith) same at.1)

pub IsBalanced-WordsAt :
    (c c' : Cpu) (p : ℕ) (vs : List ℕ)
    → IsBalanced c c'
    → c.regs rsp ≤ p
    → WordsAt c.memory p vs
    → WordsAt c'.memory p vs
IsBalanced-WordsAt c c' p vs is le at =
    WordsAt-frame c.memory c'.memory p (c.regs rsp) vs le is.above at

-- A push puts its word in front of those at the top.
pub push_value-WordsAt :
    (v : ℕ) (c : Cpu) (vs : List ℕ)
    → 8 ≤ c.regs rsp
    → c.regs rsp < 2 ^ 64
    → WordsAt c.memory (c.regs rsp) vs
    → WordsAt (push_value v c).memory ((push_value v c).regs rsp) (v ∷ vs)
push_value-WordsAt v c vs room lt at =
    let top = pushed_top v c room lt in
    let back : c.regs rsp ≡ (push_value v c).regs rsp + 8 = omega (arith, top) in
    (
      pushed_memory v c ((push_value v c).regs rsp) room lt ∙ ground (arith, top),
      subst (λ (p : ℕ). WordsAt (push_value v c).memory p vs) back
          (WordsAt-frame c.memory (push_value v c).memory (c.regs rsp) (c.regs rsp) vs (omega arith)
            (λ a le. pushed_memory v c a room lt ∙ ground arith) at),
    )

-- The words of the registers, the last one pushed first, in front of others.
abbrev pub pushed_words : List ℕ → (ℕ → ℕ) → List ℕ → List ℕ
pushed_words [] regs vs = vs
pushed_words (r ∷ rs) regs vs = pushed_words rs regs (regs r ∷ vs)

pub pushed_words-eq :
    (rs : List ℕ) (f g : ℕ → ℕ) (vs : List ℕ)
    → NoRsp rs
    → ((r : ℕ) → r ≢ rsp → f r ≡ g r)
    → pushed_words rs f vs ≡ pushed_words rs g vs
pushed_words-eq [] f g vs ok same = refl
pushed_words-eq (r ∷ rs) f g vs ok same =
    ap (λ (v : ℕ). pushed_words rs f (v ∷ vs)) (same r ok.0)
    ∙ pushed_words-eq rs f g (g r ∷ vs) ok.1 same

pub record Pushed (rs : List ℕ) (c : Cpu) (vs : List ℕ) : Type 0 where
  pub top : (push_all rs c).regs rsp ≡ c.regs rsp - 8 * length rs
  pub others : (r : ℕ) → r ≢ rsp → (push_all rs c).regs r ≡ c.regs r
  pub words : WordsAt (push_all rs c).memory ((push_all rs c).regs rsp) (pushed_words rs c.regs vs)
  pub gs : (push_all rs c).kernel_gs ≡ c.kernel_gs

pub push_all-Pushed :
    (rs : List ℕ) (c : Cpu) (vs : List ℕ)
    → NoRsp rs
    → 8 * length rs ≤ c.regs rsp
    → c.regs rsp < 2 ^ 64
    → WordsAt c.memory (c.regs rsp) vs
    → Pushed rs c vs
unfolding push_all
push_all-Pushed [] c vs ok room lt at = record {
  top = omega arith;
  others = λ r ne. refl;
  words = at;
  gs = refl;
}
push_all-Pushed (r ∷ rs) c vs ok room lt at =
    let c1 = push_value (c.regs r) c in
    let top = pushed_top (c.regs r) c (omega arith) lt in
    let rest : Pushed rs c1 (c.regs r ∷ vs) =
      push_all-Pushed rs c1 (c.regs r ∷ vs) ok.1 (omega (arith, top)) (omega (arith, top))
        (push_value-WordsAt (c.regs r) c vs (omega arith) lt at) in
    record {
      top = omega (arith, rest.top, top);
      others = λ s ne. rest.others s ne ∙ pushed_reg (c.regs r) c s ne;
      words =
          subst (λ (xs : List ℕ). WordsAt (push_all rs c1).memory ((push_all rs c1).regs rsp) xs)
            (pushed_words-eq rs c1.regs c.regs (c.regs r ∷ vs) ok.1
              (λ s ne. pushed_reg (c.regs r) c s ne))
            rest.words;
      gs = rest.gs ∙ unfold push_value in refl;
    }

-- What `iretq` takes from the five words at the top.
pub record Returned (c : Cpu) (ip segment flags sp stack : ℕ) : Type 0 where
  pub rip : (return_from c).rip ≡ ip
  pub cs : (return_from c).cs ≡ segment
  pub rflags : (return_from c).rflags ≡ flags
  pub top : (return_from c).regs rsp ≡ sp
  pub ss : (return_from c).ss ≡ stack
  pub others : (r : ℕ) → r ≢ rsp → (return_from c).regs r ≡ c.regs r
  pub gs : (return_from c).kernel_gs ≡ c.kernel_gs

pub return_from-Returned :
    (c : Cpu) (ip segment flags sp stack : ℕ)
    → c.regs rsp + 40 ≤ 2 ^ 64
    → WordsAt c.memory (c.regs rsp) (ip ∷ segment ∷ flags ∷ sp ∷ stack ∷ [])
    → Returned c ip segment flags sp stack
unfolding return_from
return_from-Returned c ip segment flags sp stack le at = record {
  rip = ap c.memory (let e : u64 (c.regs rsp + 0) ≡ c.regs rsp = omega arith in e) ∙ at.0;
  cs = ap c.memory (let e : u64 (c.regs rsp + 8) ≡ c.regs rsp + 8 = omega arith in e) ∙ at.1.0;
  rflags =
      ap c.memory (let e : u64 (c.regs rsp + 16) ≡ c.regs rsp + 8 + 8 = omega arith in e)
      ∙ at.1.1.0;
  top =
      ap c.memory (let e : u64 (c.regs rsp + 24) ≡ c.regs rsp + 8 + 8 + 8 = omega arith in e)
      ∙ at.1.1.1.0;
  ss =
      ap c.memory (let e : u64 (c.regs rsp + 32) ≡ c.regs rsp + 8 + 8 + 8 + 8 = omega arith in e)
      ∙ at.1.1.1.1.0;
  others = λ r ne. ground (arith, ne);
  gs = refl;
}
