-- ===== src/Prelude/Loops.antt =====
-- Counted loops, and memory as a function of the address.
use Prim.Native.Nat.{ℕ, zero, suc, ◌+◌}
use mathlib.Core.Path.{◌≡◌}
use native.Mathlib.Omega.{arith}
use zer0s.Prelude.Tests.{◌==◌, if◌then◌else◌}

module _ {ℓ} {S : Type ℓ} (body : ℕ → S → S) where
  -- The C loop over the index from `first` on, for a number of rounds that is known before.
  unfoldable pub for_rounds : (rounds first : ℕ) → S → S
  for_rounds zero first s = s
  for_rounds (suc rounds) first s = for_rounds rounds (first + 1) (body first s)

  -- A property of index and state that each round carries on reaches the end of the loop.
  pub for_rounds_inv {κ} :
      (Inv : ℕ → S → Type κ)
      → ((k : ℕ) (s : S) → Inv k s → Inv (k + 1) (body k s))
      → (rounds first last : ℕ) → last ≡ first + rounds
      → (s : S) → Inv first s
      → Inv last (for_rounds rounds first s)
  unfolding for_rounds
  for_rounds_inv Inv step zero first last e s start =
      rw (let e' : last ≡ first = omega arith in e') start
  for_rounds_inv Inv step (suc rounds) first last e s start =
      for_rounds_inv Inv step rounds (first + 1) last (omega arith) (body first s)
        (step first s start)

-- `m[p] = v`.
abbrev pub store {ℓ} : {A : Type ℓ} → (ℕ → A) → ℕ → A → ℕ → A
store m p v q = if p == q then v else m q
