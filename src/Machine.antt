-- ===== src/Machine.antt =====
-- The state that the shell, the keyboard and the boot code share, and how their runs end.
pub mod Sound
pub mod Samples
use zer0s.Prelude.{Bool}
use zer0s.Console.{Console}
use zer0s.Frames.{Frames}
use zer0s.Heap.{Heap}
use zer0s.Process.{Processes}
use zer0s.Interrupts.Pic.{Ports}

-- The statics of the files that the shell reaches, the writes to the ports, and the interrupt flag
-- that `sti` sets and `cli` clears.
pub record Machine : Type 0 where
  pub console : Console
  pub frames : Frames
  pub heap : Heap
  pub processes : Processes
  pub ports : Ports
  pub interrupts : Bool

-- The code returns, or it stays in its endless `hlt` loop, or it never comes to an end.
pub data Run {ℓ} (A : Type ℓ) : Type ℓ where
  running : A → Run A
  halted : A → Run A
  diverges : Run A

-- The run ends, and what it leaves satisfies the predicate.
abbrev pub Ensures {ℓ} : {A : Type ℓ} → (A → Type 0) → Run A → Type 0
Ensures P (running a) = P a
Ensures P (halted a) = P a
Ensures P diverges = ⊥
