-- ===== src/Heap/Samples.antt =====
-- Small heaps for the tests.
use zer0s.Prelude.{◌≡◌, refl, some, [], store}
use zer0s.Console.{Console}
use zer0s.Heap.{Heap, heap_start, heap_init, find_block, take_block, align8, kmalloc}
use zer0s.Heap.Live.{IsHeap, heap_init-IsHeap}

abbrev pub screen : Console
screen = record { vga = λ i. 0; row = 0; col = 0 }

abbrev pub cold : Heap
cold = record { head = 0; blocks = λ a. record { size = 0; used = 0; next = 0 } }

pub cold-IsHeap : IsHeap (heap_init cold) []
cold-IsHeap = heap_init-IsHeap cold refl

-- The heap once 64 bytes are in use.
abbrev pub busy : Heap
busy = record {
  head = heap_start;
  blocks =
      store
        (store (store cold.blocks heap_start (record { size = 0x800000; used = 0; next = 0 }))
          0x2000058 (record { size = 0x7FFFA8; used = 0; next = 0 }))
        heap_start (record { size = 64; used = 1; next = 0x2000058 });
}

pub first_call : kmalloc 60 cold screen ≡ some (0x2000018, busy, screen)
unfolding kmalloc heap_init find_block take_block align8
first_call = refl
