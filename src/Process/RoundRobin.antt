-- ===== src/Process/RoundRobin.antt =====
-- Repeated yields serve the queue in turn.
use zer0s.Prelude.{ℕ, zero, suc, ◌≡◌, Option, none, some, List}
use zer0s.Process.{Processes, process_yield}
use zer0s.Process.Yield.{IsScheduled}

-- `n` yields one behind the other.
unfoldable pub yields : ℕ → Processes → Option Processes
yields zero ps = some ps
yields (suc n) ps = elim (process_yield ps) [ none ↦ none | some ps' ↦ yields n ps' ]

-- All of `n` yields return, and then `x` runs before the queue `q`.
pub record Reaches (n : ℕ) (ps : Processes) (x : ℕ) (q : List ℕ) : Type 0 where
  pub after : Processes
  pub returned : yields n ps ≡ some after
  pub scheduled : IsScheduled after x q
