-- ===== src/Heap/Wraps.antt =====
-- Requests whose size wraps when it is rounded.
use mathlib.Core.Path.{subst}
use zer0s.Prelude.{ℕ, ◌-◌, ◌^◌, ◌≤◌, ◌<◌, ◌≡◌, ◌≢◌, inl, inr, some, Option, List, arith}
use zer0s.Console.{Console}
use zer0s.Heap.{Heap, heap_init, align8, kmalloc}
use zer0s.Heap.Chunks.{Inserted}
use zer0s.Heap.Live.{IsHeap, NoneFits}
use zer0s.Heap.Listed.{Listed, Listed-free}
use zer0s.Heap.Alloc.{kmalloc_lem}

-- A block for a request of 0 bytes: a payload of fewer than 56 joins those in use.
pub record IsTiny (live : List (ℕ × ℕ)) (t : Console) (out : Option (ℕ × Heap × Console))
    : Type 0 where
  pub pointer : ℕ
  pub heap : Heap
  pub live' : List (ℕ × ℕ)
  pub returned : out ≡ some (pointer, heap, t)
  pub nonnull : pointer ≢ 0
  pub state : IsHeap heap live'
  pub inserted : Inserted 0 pointer live live'

-- A request within 7 bytes of 2 ^ 64 wraps to 0 when it is rounded: where the list of a well-formed
-- heap leads to any free block, `kmalloc` returns a pointer other than `NULL`, to a payload of fewer
-- than 56 bytes.
pub kmalloc_wraps :
    (h : Heap) {live : List (ℕ × ℕ)} (size a : ℕ) (t : Console)
    → 2 ^ 64 - 7 ≤ size
    → size < 2 ^ 64
    → IsHeap (heap_init h) live
    → Listed (heap_init h) a
    → ((heap_init h).blocks a).used ≡ 0
    → IsTiny live t (kmalloc size h t)
unfolding align8
kmalloc_wraps h {live} size a t huge lt is listed free =
    let zero_size : align8 size ≡ 0 = omega arith in
    elim (kmalloc_lem h size t (omega arith) is) [
      | inl r ↦ record {
        pointer = r.pointer;
        heap = r.heap;
        live' = r.live';
        returned = r.returned;
        nonnull = r.nonnull;
        state = r.state;
        inserted = subst (λ (n : ℕ). Inserted n r.pointer live r.live') zero_size r.inserted;
      }
      | inr r ↦ absurd (
          Listed-free r.state a listed free
            (subst (λ (n : ℕ). NoneFits n r.state.chunks) zero_size r.none_fits))
    ]
