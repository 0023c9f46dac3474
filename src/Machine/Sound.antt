-- ===== src/Machine/Sound.antt =====
-- When the state that the parts share is in order.
use zer0s.Prelude.{ℕ, Bool, true, false, List, if◌then◌else◌}
use zer0s.Frames.{Frames}
use zer0s.Frames.Accounting.{IsConsistent}
use zer0s.Heap.{Heap}
use zer0s.Heap.Live.{IsHeap}
use zer0s.Machine.{Machine, Run, Ensures}

-- The counters of the frames fit their bitmap, and the heap is set up and well-formed.
pub record AreSound (f : Frames) (h : Heap) : Type 0 where
  pub counted : IsConsistent f
  pub live : List (ℕ × ℕ)
  pub heap : IsHeap h live

abbrev pub IsSound : Machine → Type 0
IsSound m = AreSound m.frames m.heap

pub Ensures-if {ℓ} :
    {A : Type ℓ} (P : A → Type 0) (b : Bool) (r s : Run A)
    → Ensures P r
    → Ensures P s
    → Ensures P (if b then r else s)
Ensures-if P true r s hr hs = hr
Ensures-if P false r s hr hs = hs
