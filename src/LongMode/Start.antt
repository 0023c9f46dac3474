-- ===== src/LongMode/Start.antt =====
-- The check for long mode, and the message without it.
use native.Mathlib.Decide.{ℕ_discrete, dec_lt}
use zer0s.Prelude.{
  ℕ, zero, suc, ◌+◌, ◌*◌, ◌^◌, ◌≤◌, ◌<◌, ◌≡◌, ◌≢◌, ◌⊎◌, inl, inr, refl, ◌∙◌, arith, List, [], ◌∷◌,
  length, get_or, bit_and, store,
}
use Prim.Native.Nat.{bit_xor}
use zer0s.LongMode.{Processor, check_long_mode, print_string}

-- The identification flag can be flipped, the extended functions reach 0x80000001, and that one
-- says so.
pub record Supports (cpu : Processor) (eflags : ℕ) : Type 0 where
  pub flips : cpu.popfd eflags (bit_xor eflags (2 ^ 21)) ≢ eflags
  pub extended : 0x80000001 ≤ (cpu.cpuid 0x80000000).0
  pub long_mode : bit_and (cpu.cpuid 0x80000001).1 (2 ^ 29) ≢ 0

pub check_long_mode-Supports :
    (cpu : Processor) (eflags : ℕ)
    → (Supports cpu eflags × (check_long_mode cpu eflags ≡ 1))
      ⊎ (¬ Supports cpu eflags × (check_long_mode cpu eflags ≡ 0))
unfolding check_long_mode
check_long_mode-Supports cpu eflags =
    elim (ℕ_discrete (cpu.popfd eflags (bit_xor eflags (2 ^ 21))) eflags) [
      | yes same ↦ inr (λ s. s.flips same, ground (arith, same))
      | no flips ↦ elim (dec_lt (cpu.cpuid 0x80000000).0 0x80000001) [
        | yes low ↦ inr (λ s. absurd (omega (arith, s.extended, low)), ground (arith, flips, low))
        | no extended ↦ elim (ℕ_discrete (bit_and (cpu.cpuid 0x80000001).1 (2 ^ 29)) 0) [
          | yes clear ↦ inr (λ s. s.long_mode clear, ground (arith, flips, extended, clear))
          | no set ↦ inl (
            record { flips = flips; extended = omega (arith, extended); long_mode = set },
            ground (arith, flips, extended, set),
          )
        ]
      ]
    ]

pub print_string-other :
    (s : List ℕ) (edi : ℕ) (text : ℕ → ℕ) (q : ℕ)
    → (q < edi) ⊎ (edi + 2 * length s ≤ q)
    → print_string s edi text q ≡ text q
unfolding print_string
print_string-other [] edi text q out = refl
print_string-other (al ∷ s) edi text q out =
    print_string-other s (edi + 1 + 1) (store (store text edi al) (edi + 1) 0x0C) q (further out)
    ∙ ground (arith, out)
  where
    further :
        (q < edi) ⊎ (edi + 2 * length (al ∷ s) ≤ q)
        → (q < edi + 1 + 1) ⊎ (edi + 1 + 1 + 2 * length s ≤ q)
    further (inl lt) = inl (omega (arith, lt))
    further (inr ge) = inr (omega (arith, ge))

-- A character is red on the screen.
pub print_string-get_or :
    (s : List ℕ) (edi : ℕ) (text : ℕ → ℕ) (i : ℕ)
    → i < length s
    → (print_string s edi text (edi + 2 * i) ≡ get_or s i 0)
      × (print_string s edi text (edi + 2 * i + 1) ≡ 0x0C)
unfolding print_string
print_string-get_or [] edi text i lt = absurd (omega arith)
print_string-get_or (al ∷ s) edi text zero lt =
    let m = store (store text edi al) (edi + 1) 0x0C in
    let e : edi + 2 * 0 ≡ edi = omega arith in
    rw e (
      print_string-other s (edi + 1 + 1) m edi (inl (omega arith)) ∙ ground arith,
      print_string-other s (edi + 1 + 1) m (edi + 1) (inl (omega arith)) ∙ ground arith,
    )
print_string-get_or (al ∷ s) edi text (suc i) lt =
    let m = store (store text edi al) (edi + 1) 0x0C in
    let h = print_string-get_or s (edi + 1 + 1) m i (omega (arith, lt)) in
    let e : edi + 2 * suc i ≡ edi + 1 + 1 + 2 * i = omega arith in rw e h
