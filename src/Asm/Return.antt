-- ===== src/Asm/Return.antt =====
-- The checks of `iretq` on the code segment that it returns to.
use zer0s.Prelude.{
  ℕ, ◌+◌, ◌*◌, ◌/◌, ◌%◌, ◌^◌, ◌<◌, ◌≡◌, refl, arith, Bool, true, false, ◌&&◌, ◌||◌, not, List, [],
  ◌∷◌, ◌++◌, ◌==◌, ltb, if◌then◌else◌, u64, inl, inr, Bool-cases,
}
use zer0s.Asm.{
  Cpu, Instr, iretq, push, pop, push_word, push_at, mov, load, save, add_to, call, swapgs, cli,
  pushfq, return_from, step, exec, rsp,
}
use zer0s.Asm.Words.{WordsAt}

-- A run up to its end or its return, or a general protection fault at the return, with the selector
-- that it reports and the processor as the fault finds it.
pub data Return : Type 0 where
  resumed : Cpu → Return
  protection_fault : (selector : ℕ) → Cpu → Return

-- The selector is null, names the local table, of which there is none, or a descriptor that ends
-- behind the limit of the global one.
unfoldable pub bad_selector : (gdt_limit selector : ℕ) → Bool
bad_selector gdt_limit selector =
    (selector / 4 == 0) || (selector / 4 % 2 == 1) || ltb gdt_limit (selector / 8 * 8 + 7)

-- The checks of the descriptor come behind these.
unfoldable pub return_checked : (gdt_limit : ℕ) → Cpu → Return
unfolding bad_selector
return_checked gdt_limit c =
    let selector = c.memory (u64 (c.regs rsp + 8)) % 2 ^ 16 in
    if bad_selector gdt_limit selector then protection_fault selector c else resumed (return_from c)

abbrev is_return : Instr → Bool
is_return iretq = true
is_return (push r) = false
is_return (pop r) = false
is_return (push_word v) = false
is_return (push_at s off) = false
is_return (mov r s) = false
is_return (load r s off) = false
is_return (save s off r) = false
is_return (add_to r v) = false
is_return call = false
is_return swapgs = false
is_return cli = false
is_return pushfq = false

abbrev pub no_return : List Instr → Bool
no_return [] = true
no_return (i ∷ is) = not (is_return i) && no_return is

module _ {W : Type 0} (callee : Cpu → W → Cpu × W) (gdt_limit : ℕ) where
  -- A run whose `iretq` ends it, with the checks.
  unfoldable pub run : List Instr → Cpu → W → Return
  unfolding return_checked
  run [] c w = resumed c
  run (i ∷ is) c w =
      let (c', w') = step callee i c w in
      let rest = run is c' w' in if is_return i then return_checked gdt_limit c else rest

  pub run-return :
      (p : List Instr) (c : Cpu) (w : W)
      → no_return p ≡ true
      → run (p ++ (iretq ∷ [])) c w ≡ return_checked gdt_limit (exec callee p c w).0
  unfolding run exec
  run-return [] c w plain = refl
  run-return (i ∷ p) c w plain = elim (Bool-cases (is_return i)) [
    | inl e ↦ absurd (ground (arith, e, plain))
    | inr e ↦ let o = step callee i c w in rw e (run-return p o.0 o.1 (ground (arith, e, plain)))
  ]

-- A return to a descriptor behind the limit, by the words at the top of the stack.
pub return_checked-fault :
    (gdt_limit : ℕ) (c : Cpu) (ip segment : ℕ) (vs : List ℕ)
    → c.regs rsp + 8 < 2 ^ 64
    → WordsAt c.memory (c.regs rsp) (ip ∷ segment ∷ vs)
    → gdt_limit < segment % 2 ^ 16 / 8 * 8 + 7
    → return_checked gdt_limit c ≡ protection_fault (segment % 2 ^ 16) c
unfolding return_checked bad_selector
return_checked-fault gdt_limit c ip segment vs small at behind =
    let e : u64 (c.regs rsp + 8) ≡ c.regs rsp + 8 = omega (arith, small) in
    rw (e, at.1.0) (ground (arith, behind))
