-- ===== src/Heap/Alloc.antt =====
-- `kmalloc` and `kfree` against the payloads in use.
use zer0s.Prelude.{
  ℕ, ◌+◌, ◌-◌, ◌%◌, ◌^◌, ◌≡◌, ◌≢◌, ◌⊎◌, inl, inr, refl, ◌∙◌, ap, false, Option-cases, Option, none,
  some, List, ◌∷◌, ◌++◌, arith, ◌==◌, u64, bytes,
}
use zer0s.Console.{Console, terminal_writestring}
use zer0s.Heap.{
  Heap, heap_start, heap_fuel, found, exhausted, align8, find_block, take_block, heap_init, kmalloc,
  kfree,
}
use zer0s.Heap.Chunks.{first_fit, take_first, release, spans, spans_after, Inserted, extent-length}
use zer0s.Heap.Spans.{take_first-Inserted, spans-release}
use zer0s.Heap.Chain.{Chain-extent, find_block-first_fit}
use zer0s.Heap.Take.{first_fit_bounds, take_block-Chain}
use zer0s.Heap.Release.{IsHeader-of_span, IsHeader-lt, free_block-Chain}
use zer0s.Heap.Live.{
  IsHeap, NoneFits, heap_end, align8-mod, take_first-IsAligned, release-IsAligned, first_fit-mod,
  first_fit-NoneFits,
}

-- `kmalloc` returned a block: an aligned payload for the rounded size joins those in use.
pub record Served (size : ℕ) (live : List (ℕ × ℕ)) (t : Console) (out : Option (ℕ × Heap × Console))
    : Type 0 where
  pub pointer : ℕ
  pub heap : Heap
  pub live' : List (ℕ × ℕ)
  pub returned : out ≡ some (pointer, heap, t)
  pub nonnull : pointer ≢ 0
  pub multiple : pointer % 8 ≡ 0
  pub state : IsHeap heap live'
  pub inserted : Inserted (align8 size) pointer live live'

-- `kmalloc` returned `NULL`: no free chunk holds the rounded size, nothing changed but for the
-- message.
pub record Refused (size : ℕ) (h : Heap) (live : List (ℕ × ℕ)) (t : Console)
    (out : Option (ℕ × Heap × Console)) : Type 0 where
  pub state : IsHeap (heap_init h) live
  pub none_fits : NoneFits (align8 size) state.chunks
  pub returned :
      out
      ≡ some
          (0, heap_init h, terminal_writestring (bytes "[ERROR] kmalloc: Out of heap memory!\n") t)

module _ (h : Heap) {live : List (ℕ × ℕ)} (size : ℕ) (t : Console) (pos : size ≢ 0)
    (is : IsHeap (heap_init h) live) where
  -- The walk from the head of the list.
  walk :
      find_block heap_fuel (heap_init h).head (align8 size) (heap_init h).blocks
      ≡ elim (first_fit (align8 size) heap_start is.chunks) [ none ↦ exhausted | some b ↦ found b ]
  walk =
      let m = (heap_init h).blocks in
      let total = Chain-extent m heap_start heap_start heap_end is.chunks is.chain in
      rw is.head (
        find_block-first_fit heap_fuel m heap_start heap_start heap_end (align8 size) is.chunks
          (omega arith) (omega (arith, total, extent-length is.chunks)) is.chain)

  kmalloc-Served :
      (b : ℕ)
      → first_fit (align8 size) heap_start is.chunks ≡ some b
      → Served size live t (kmalloc size h t)
  unfolding kmalloc
  kmalloc-Served b e =
      let m = (heap_init h).blocks in
      let test : (size == 0) ≡ false = ground arith in
      let here = walk ∙ ap (λ (o : Option ℕ). elim o [ none ↦ exhausted | some c ↦ found c ]) e in
      let bounds =
        first_fit_bounds m heap_end (omega arith) heap_start heap_start (align8 size) is.chunks b
          is.chain e in
      let pointer : u64 (b + 24) ≡ b + 24 = omega (arith, bounds.0, bounds.1) in
      record {
        pointer = b + 24;
        heap = record (heap_init h) { blocks = take_block b (align8 size) m };
        live' = spans heap_start (take_first (align8 size) is.chunks);
        returned = rw (test, here, pointer);
        nonnull = omega arith;
        multiple =
            omega (arith, first_fit-mod (align8 size) heap_start is.chunks b refl is.aligned e);
        state = record {
          chunks = take_first (align8 size) is.chunks;
          head = is.head;
          chain =
              take_block-Chain m heap_end (omega arith) heap_start heap_start (align8 size)
                is.chunks b is.chain e;
          aligned = take_first-IsAligned (align8 size) is.chunks (align8-mod size) is.aligned;
          used = refl;
        };
        inserted = rw (← is.used) (take_first-Inserted (align8 size) heap_start is.chunks b e);
      }

  pub kmalloc-Refused :
      first_fit (align8 size) heap_start is.chunks ≡ none → Refused size h live t (kmalloc size h t)
  unfolding kmalloc
  kmalloc-Refused e =
      let test : (size == 0) ≡ false = ground arith in
      let here = walk ∙ ap (λ (o : Option ℕ). elim o [ none ↦ exhausted | some c ↦ found c ]) e in
      record {
        state = is;
        none_fits = first_fit-NoneFits (align8 size) heap_start is.chunks e;
        returned = rw (test, here);
      }

  -- On a well-formed heap (or one that the call sets up first) `kmalloc` of a size other than 0
  -- returns, and the heap is well-formed. It serves the request: a new aligned payload of the
  -- rounded size or at most 55 bytes more, with all others in use as they were. Or no free chunk
  -- holds the rounded size, and it returns `NULL` with a message.
  pub kmalloc_lem : Served size live t (kmalloc size h t) ⊎ Refused size h live t (kmalloc size h t)
  kmalloc_lem = elim (Option-cases (first_fit (align8 size) heap_start is.chunks)) [
    | inl e ↦ inr (kmalloc-Refused e)
    | inr (b, e) ↦ inl (kmalloc-Served b e)
  ]

-- On a well-formed heap `kfree` of a payload in use takes that payload, and no other, out of use,
-- and the heap stays well-formed.
pub kfree_lem :
    {h : Heap} (before : List (ℕ × ℕ)) (p z : ℕ) (behind : List (ℕ × ℕ))
    → IsHeap h (before ++ (p, z) ∷ behind)
    → IsHeap (kfree p h) (before ++ behind)
unfolding kfree
kfree_lem {h} before p z behind is =
    let b = p - 24 in
    let low = spans_after heap_start is.chunks before p z behind is.used in
    let back : p ≡ b + 24 = omega arith in
    let used : spans heap_start is.chunks ≡ before ++ (b + 24, z) ∷ behind =
      is.used ∙ ap (λ (q : ℕ). before ++ (q, z) ∷ behind) back in
    let header = IsHeader-of_span heap_start is.chunks before b z behind used in
    let top =
      IsHeader-lt h.blocks heap_end (omega arith) heap_start heap_start b is.chunks is.chain
        header in
    let test : (p == 0) ≡ false = ground arith in
    let at : u64 (p + 2 ^ 64 - 24) ≡ b = omega (arith, top) in
    rw (test, at)
      (record {
        chunks = release b heap_start is.chunks;
        head = is.head;
        chain =
            free_block-Chain h.blocks heap_end (omega arith) heap_start heap_start b is.chunks
              (omega arith) is.chain header;
        aligned = release-IsAligned b heap_start is.chunks is.aligned;
        used = spans-release b heap_start is.chunks before z behind used;
      })

kfree-Served :
    {live : List (ℕ × ℕ)} {size : ℕ} {t : Console} {out : Option (ℕ × Heap × Console)}
    (r : Served size live t out)
    → IsHeap (kfree r.pointer r.heap) live
kfree-Served r =
    let i = r.inserted in
    rw i.was (kfree_lem i.before r.pointer i.given i.behind (rw i.is at r.state))

-- On a well-formed heap `kfree` of a pointer other than `NULL` that `kmalloc` has just returned for
-- a size other than 0 brings back the payloads that were in use before.
pub kfree-kmalloc :
    (h g : Heap) {live : List (ℕ × ℕ)} (size p : ℕ) (t u : Console)
    → size ≢ 0
    → IsHeap (heap_init h) live
    → kmalloc size h t ≡ some (p, g, u)
    → p ≢ 0
    → IsHeap (kfree p g) live
kfree-kmalloc h g {live} size p t u pos is out ne = elim (kmalloc_lem h size t pos is) [
  | inl r ↦
      let same_pointer : p ≡ r.pointer = ground (arith, r.returned) in
      let same_heap : g ≡ r.heap = ground (arith, r.returned) in
      rw (same_pointer, same_heap) (kfree-Served r)
  | inr r ↦ absurd (ne (ground (arith, r.returned)))
]
