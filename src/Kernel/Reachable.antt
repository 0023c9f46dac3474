-- ===== src/Kernel/Reachable.antt =====
-- The states that interrupts lead to from the one that `kernel_main` leaves.
use zer0s.Prelude.{ℕ, ◌<◌, ◌≡◌, ◌≢◌, sym, arith, []}
use zer0s.Interrupts.Idt.{Handlers, wanted_gate}
use zer0s.Machine.{Run, running}
use zer0s.Kernel.{Kernel, irq_handler, kernel_main}
use zer0s.Kernel.Boot.{IsCold, IsBooted, kernel_main-IsBooted}
use zer0s.Kernel.Irq.{Answers, IsInOrder, irq_handler-IsInOrder, irq_handler-IsAcknowledged}

-- The idle loop is left for an interrupt whose handler returns.
pub data Step : Kernel → Kernel → Type 0 where
  interrupt :
      {s s' : Kernel} (status answer : ℕ → ℕ) (fuel reads int_no : ℕ)
      → (int_no ≡ 33 → Answers status fuel reads)
      → irq_handler status answer fuel reads int_no s ≡ running s'
      → Step s s'

-- The states of the idle loop, from the end of `kernel_main` on.
pub data Reach (hs : Handlers) (magic addr : ℕ) (cold : Kernel) : Kernel → Type 0 where
  booted : {s : Kernel} → kernel_main hs magic addr cold ≡ running s → Reach hs magic addr cold s
  more : {s s' : Kernel} → Reach hs magic addr cold s → Step s s' → Reach hs magic addr cold s'

-- The driver, the frames and the heap are in order, and every vector still has its gate.
abbrev pub IsSafe : Handlers → Kernel → Type 0
IsSafe hs s = IsInOrder s × ((v : ℕ) → v < 256 → s.idt.idt v ≡ wanted_gate hs v)

Step-IsSafe : (hs : Handlers) {s s' : Kernel} → Step s s' → IsSafe hs s → IsSafe hs s'
Step-IsSafe hs {s} {s'} (interrupt status answer fuel reads int_no answers e) (order, gates) =
    let order' = irq_handler-IsInOrder status answer fuel reads int_no s answers order in
    let told = irq_handler-IsAcknowledged status answer fuel reads int_no s in
    (rw e at order', λ v lt. rw (rw e at told).1 (gates v lt))

IsBooted-IsSafe :
    (hs : Handlers) {cold s : Kernel} {r : Run Kernel}
    → IsBooted hs cold r
    → r ≡ running s
    → IsSafe hs s
IsBooted-IsSafe hs {cold} {s} b e =
    let same : b.after ≡ s = ground (arith, b.returned, e) in
    rw (sym same) ((b.typing, record { counted = b.counted; live = []; heap = b.heap }), b.gates)

-- In every state of the idle loop the driver's line and dead key are well-formed, the frame
-- counters fit the bitmap, the heap is well-formed, and every vector has its gate.
pub Reach-IsSafe :
    (hs : Handlers) (magic addr : ℕ) (cold : Kernel) {s : Kernel}
    → IsCold cold
    → Reach hs magic addr cold s
    → IsSafe hs s
Reach-IsSafe hs magic addr cold is (booted e) =
    IsBooted-IsSafe hs (kernel_main-IsBooted hs magic addr cold is) e
Reach-IsSafe hs magic addr cold is (more before step) =
    Step-IsSafe hs step (Reach-IsSafe hs magic addr cold is before)

-- In no state of the idle loop does the line that is being typed hold an `x` or a `z`.
pub Reach-no_x :
    (hs : Handlers) (magic addr : ℕ) (cold : Kernel) {s : Kernel} (i : ℕ)
    → IsCold cold
    → Reach hs magic addr cold s
    → i < s.keyboard.cmd_pos
    → (s.keyboard.cmd_buffer i ≢ b'x') × (s.keyboard.cmd_buffer i ≢ b'z')
Reach-no_x hs magic addr cold {s} i is reach lt =
    let typed = (Reach-IsSafe hs magic addr cold is reach).0.0.text i lt in
    (λ e. ground (arith, typed, e), λ e. ground (arith, typed, e))
