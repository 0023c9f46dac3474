-- ===== src/Machine/Samples.antt =====
-- Small states for the tests.
use zer0s.Prelude.{arith, refl, [], none, false}
use zer0s.Console.{Console}
use zer0s.Frames.{Frames, bitmap_addr}
use zer0s.Frames.Bitmap.{bitmap_test_bit}
use zer0s.Frames.Count.{count_used}
use zer0s.Frames.Accounting.{IsConsistent}
use zer0s.Heap.{Heap, heap_init}
use zer0s.Heap.Live.{heap_init-IsHeap}
use zer0s.Process.{Processes, cleared}
use zer0s.Machine.{Machine}
use zer0s.Machine.Sound.{IsSound}

abbrev pub screen : Console
screen = record { vga = λ i. 0; row = 0; col = 0 }

-- Two pages, both used.
abbrev pub full : Frames
full = record {
  frame_bitmap = bitmap_addr;
  bitmap = λ i. 3;
  total_pages = 2;
  used_pages = 2;
  free_pages = 0;
}

full-IsConsistent : IsConsistent full
unfolding count_used bitmap_test_bit
full-IsConsistent = record { fits = λ i. omega arith; small = omega arith; used = refl; sum = refl }

abbrev pub no_heap : Heap
no_heap = record { head = 0; blocks = λ a. record { size = 0; used = 0; next = 0 } }

abbrev pub no_processes : Processes
no_processes = record {
  table = λ i. cleared;
  current_process = none;
  ready_queue = none;
  next_pid = 1;
}

abbrev pub statics : Machine
statics = record {
  console = screen;
  frames = record {
    frame_bitmap = 0;
    bitmap = λ i. 0;
    total_pages = 0;
    used_pages = 0;
    free_pages = 0;
  };
  heap = no_heap;
  processes = no_processes;
  ports = [];
  interrupts = false;
}

abbrev pub sample : Machine
sample = record statics { frames = full; heap = heap_init no_heap }

pub sample-IsSound : IsSound sample
sample-IsSound = record {
  counted = full-IsConsistent;
  live = [];
  heap = heap_init-IsHeap no_heap refl;
}
