-- ===== src/Heap/Tests.antt =====
-- The heap at its first calls.
use zer0s.Prelude.{◌-◌, ◌^◌, ◌≡◌, ◌⊎◌, refl, some, [], ◌∷◌, arith}
use zer0s.Heap.{heap_start, heap_init, kmalloc, kfree, heap_totals}
use zer0s.Heap.Chunks.{spans}
use zer0s.Heap.Live.{IsHeap}
use zer0s.Heap.Samples.{screen, cold, cold-IsHeap, busy, first_call}
use zer0s.Heap.Apart.{IsPlaced, kmalloc-Apart}
use zer0s.Heap.Listed.{at_head}
use zer0s.Heap.Wraps.{IsTiny, kmalloc_wraps}
use zer0s.Heap.Alloc.{Served, Refused, kmalloc_lem, kfree_lem, kfree-kmalloc}

totals : heap_totals 4 heap_start busy.blocks 0 0 0 ≡ some (2, 0x7FFFE8, 0x7FFFA8)
unfolding heap_totals
totals = refl

busy-IsHeap : IsHeap busy ((0x2000018, 64) ∷ [])
unfolding spans
busy-IsHeap = record {
  chunks = (64, 1) ∷ (0x7FFFA8, 0) ∷ [];
  head = refl;
  chain = (refl, refl, refl, (refl, refl, refl, (refl, refl)));
  aligned = (refl, (refl, tt));
  used = refl;
}

kmalloc_lem_example :
    Served 100 [] screen (kmalloc 100 cold screen)
    ⊎ Refused 100 cold [] screen (kmalloc 100 cold screen)
kmalloc_lem_example = kmalloc_lem cold 100 screen (omega arith) cold-IsHeap

kfree_lem_example : IsHeap (kfree 0x2000018 busy) []
kfree_lem_example = kfree_lem [] 0x2000018 64 [] busy-IsHeap

kfree-kmalloc_example : IsHeap (kfree 0x2000018 busy) []
kfree-kmalloc_example =
    kfree-kmalloc cold busy 60 0x2000018 screen screen (omega arith) cold-IsHeap first_call
      (omega arith)

-- The request for all but one byte of the address space.
kmalloc_wraps_example : IsTiny [] screen (kmalloc (2 ^ 64 - 1) cold screen)
unfolding heap_init
kmalloc_wraps_example =
    kmalloc_wraps cold (2 ^ 64 - 1) (heap_init cold).head screen (omega arith) (omega arith)
      cold-IsHeap at_head refl

kmalloc-Apart_example : IsPlaced 60 0x2000018 [] busy
kmalloc-Apart_example =
    kmalloc-Apart cold busy 60 0x2000018 screen screen (omega arith) cold-IsHeap first_call
      (omega arith)
