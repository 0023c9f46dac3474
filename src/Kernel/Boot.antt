-- ===== src/Kernel/Boot.antt =====
-- What `kernel_main` leaves.
use zer0s.Prelude.{ℕ, ◌≡◌, ◌≢◌, ◌<◌, inl, inr, refl, arith, true, false, [], bytes}
use zer0s.Console.{terminal_writestring}
use zer0s.Frames.Bitmap.{AreBytes}
use zer0s.Frames.Accounting.{IsConsistent}
use zer0s.Frames.Init.{memory_init-IsConsistent}
use zer0s.Heap.{heap_init, kfree}
use zer0s.Heap.Live.{IsHeap, heap_init-IsHeap}
use zer0s.Heap.Alloc.{kmalloc_lem, kfree-kmalloc}
use zer0s.Interrupts.Idt.{Handlers, wanted_gate, idt_init_gates}
use zer0s.Interrupts.Pic.{pic_remap}
use zer0s.Machine.{Machine, Run, running}
use zer0s.Keyboard.Typing.{IsTyping, cleared-IsTyping}
use zer0s.Kernel.{Kernel, init_devices, use_block, test_heap, start_shell, end_boot, kernel_main}

-- The statics are 0, as the loader leaves them, and memory holds bytes.
pub record IsCold (s : Kernel) : Type 0 where
  pub no_heap : s.machine.heap.head ≡ 0
  pub no_pages : s.machine.frames.used_pages ≡ 0
  pub memory : AreBytes s.machine.frames.bitmap
  pub no_line : s.keyboard.cmd_pos ≡ 0
  pub no_accent : s.keyboard.dead_key ≡ false

-- The heap test left the heap set up with nothing in use, and the rest of the state alone.
record IsTested (m : Machine) (r : Run Machine) : Type 0 where
  pub after : Machine
  pub returned : r ≡ running after
  pub heap : IsHeap after.heap []
  pub frames : after.frames ≡ m.frames
  pub ports : after.ports ≡ m.ports

use_block-nonnull :
    (test : ℕ) (m : Machine)
    → test ≢ 0
    → ((use_block test m).heap ≡ kfree test m.heap)
      × ((use_block test m).frames ≡ m.frames)
      × ((use_block test m).ports ≡ m.ports)
unfolding use_block
use_block-nonnull test m ne = ground (arith, ne)

test_heap-IsTested : (m : Machine) → m.heap.head ≡ 0 → IsTested m (test_heap m)
unfolding test_heap use_block
test_heap-IsTested m cold =
    let start = heap_init-IsHeap m.heap cold in
    elim (kmalloc_lem m.heap 64 m.console (omega arith) start) [
      | inl r ↦ record {
        after = use_block r.pointer (record m { heap = r.heap });
        returned = rw (test_heap, r.returned) refl;
        heap = rw (use_block-nonnull r.pointer (record m { heap = r.heap }) r.nonnull).0 (
            kfree-kmalloc m.heap r.heap 64 r.pointer m.console m.console (omega arith) start
              r.returned r.nonnull);
        frames = (use_block-nonnull r.pointer (record m { heap = r.heap }) r.nonnull).1;
        ports = (use_block-nonnull r.pointer (record m { heap = r.heap }) r.nonnull).2;
      }
      | inr r ↦ record {
        after = record m {
          heap = heap_init m.heap;
          console = terminal_writestring (bytes "[ERROR] kmalloc: Out of heap memory!\n") m.console;
        };
        returned = rw (test_heap, r.returned) refl;
        heap = start;
        frames = refl;
        ports = refl;
      }
    ]

-- What `kernel_main` left: all gates set, the controllers programmed, no line typed, the counters
-- and the heap in order, and interrupts enabled.
pub record IsBooted (hs : Handlers) (s : Kernel) (r : Run Kernel) : Type 0 where
  pub after : Kernel
  pub returned : r ≡ running after
  pub gates : (v : ℕ) → v < 256 → after.idt.idt v ≡ wanted_gate hs v
  pub loaded : after.idt.loaded ≡ record { limit = 4095; base = hs.table }
  pub ports : after.machine.ports ≡ pic_remap s.machine.ports
  pub keyboard : after.keyboard ≡ s.keyboard
  pub typing : IsTyping after.keyboard
  pub counted : IsConsistent after.machine.frames
  pub heap : IsHeap after.machine.heap []
  pub interrupts : after.machine.interrupts ≡ true

end_boot-running :
    {r : Run Machine} {m : Machine} (s : Kernel)
    → r ≡ running m
    → end_boot s r ≡ running (record s { machine = start_shell m })
unfolding end_boot
end_boot-running s e = rw e refl

-- From the statics that the loader leaves, `kernel_main` reaches its idle loop: every vector has
-- its gate and the table is loaded, the controllers are programmed, the keyboard's line is empty,
-- the frame counters fit the bitmap, the heap is set up with no block in use, and interrupts are
-- enabled.
pub kernel_main-IsBooted :
    (hs : Handlers) (magic addr : ℕ) (s : Kernel)
    → IsCold s
    → IsBooted hs s (kernel_main hs magic addr s)
kernel_main-IsBooted hs magic addr s cold =
    let s' = init_devices hs addr s in
    let tested : IsTested s'.machine (test_heap s'.machine) =
      test_heap-IsTested s'.machine (unfold init_devices in cold.no_heap) in
    let gates = idt_init_gates hs s.idt in
    record {
      after = record s' { machine = start_shell tested.after };
      returned = unfold kernel_main in end_boot-running s' tested.returned;
      gates = unfold init_devices in gates.0;
      loaded = unfold init_devices in gates.2;
      ports = unfold start_shell in rw tested.ports (unfold init_devices in refl);
      keyboard = unfold init_devices in refl;
      typing = unfold init_devices in cleared-IsTyping s.keyboard cold.no_line cold.no_accent;
      counted =
          unfold start_shell in
          rw tested.frames (
            unfold init_devices in
            (memory_init-IsConsistent addr 0 s.machine.frames _ cold.memory cold.no_pages).0);
      heap = unfold start_shell in tested.heap;
      interrupts = unfold start_shell in refl;
    }
