-- ===== src/LongMode/Memory.antt =====
-- The allocators of kernel/arch/x86_64/memory.c over the page tables of the loader.
use zer0s.Prelude.{
  ℕ, ◌+◌, ◌*◌, ◌^◌, ◌≤◌, ◌<◌, ◌≡◌, ◌≢◌, ◌⊎◌, inl, inr, ap, ◌∙◌, arith, Option, none, some, List, [],
  ◌∷◌, ◌++◌, store,
}
use zer0s.Console.{Console}
use zer0s.Frames.{Frames, null, memory_init, alloc_frame}
use zer0s.Frames.Bitmap.{AreBytes}
use zer0s.Frames.Accounting.{IsConsistent, alloc_frame_lem}
use zer0s.Frames.Sequence.{alloc_frames, alloc_frames-nth_frame}
use zer0s.Heap.{Heap, heap_start, heap_init, align8, kmalloc}
use zer0s.Heap.Live.{IsHeap, heap_end}
use zer0s.Heap.Apart.{Apart, kmalloc-Apart}
use zer0s.LongMode.{Labels, Loader, setup_long_mode, qword}
use zer0s.LongMode.Tables.{setup_long_mode-IsMapped}
use zer0s.LongMode.Paging.{index, top-eq, translate, IsMapped-translate}

-- The memory behind an address, under the tables of `setup_long_mode`.
abbrev pub behind : Labels → Loader → (va : ℕ) → Option ℕ
behind labels s va = translate (setup_long_mode labels s).dwords (setup_long_mode labels s).cr3 va

behind-identity :
    (labels : Labels) (s : Loader) (va : ℕ) → va < 0x4000000 → behind labels s va ≡ some va
unfolding setup_long_mode
behind-identity labels s va lt =
    IsMapped-translate (setup_long_mode labels s).dwords va (setup_long_mode-IsMapped labels s) lt

-- Under the loader's page tables, with an allocator that is ready, consistent and of at most
-- 16384 pages: alloc_frame returns NULL, or every byte of the page it returns is the byte of
-- memory at that address.
pub alloc_frame-behind :
    {f : Frames} (t : Console) (labels : Labels) (s : Loader) (q : ℕ)
    → IsConsistent f
    → f.frame_bitmap ≢ null
    → f.total_pages ≤ 16384
    → q < 4096
    → ((alloc_frame f t).0 ≡ null)
      ⊎ (behind labels s ((alloc_frame f t).0 + q) ≡ some ((alloc_frame f t).0 + q))
alloc_frame-behind {f} t labels s q ok ready total lt = elim (alloc_frame_lem t ok ready) [
  | inr e ↦ inl e.failed
  | inl a ↦ inr (
      behind-identity labels s ((alloc_frame f t).0 + q)
        (omega (arith, a.address, a.lowest.below, total, lt)))
]

Apart-at :
    (lo hi p z : ℕ) (before after : List (ℕ × ℕ))
    → Apart lo hi (before ++ (p, z) ∷ after)
    → (lo + 24 ≤ p) × (p + z ≤ hi)
Apart-at lo hi p z [] after ap = (ap.0, ap.1)
Apart-at lo hi p z ((r, y) ∷ before) after ap =
    let rest = Apart-at (r + y) hi p z before after ap.2 in (omega (arith, rest.0, ap.0), rest.1)

-- Under the loader's page tables, when kmalloc on a well-formed heap returns a pointer other
-- than NULL for a size other than 0: every byte of its payload, and of the header below it, is
-- the byte of memory at that address.
pub kmalloc-behind :
    (h g : Heap) {live : List (ℕ × ℕ)} (size p va : ℕ) (t u : Console) (labels : Labels)
    (s : Loader)
    → size ≢ 0
    → IsHeap (heap_init h) live
    → kmalloc size h t ≡ some (p, g, u)
    → p ≢ null
    → p ≤ va + 24
    → va < p + align8 size
    → behind labels s va ≡ some va
kmalloc-behind h g size p va t u labels s pos is out ne from to =
    let placed = kmalloc-Apart h g size p t u pos is out ne in
    let at = placed.inserted in
    let span =
      Apart-at heap_start heap_end p at.given at.before at.behind (rw (← at.is) placed.apart) in
    behind-identity labels s va (omega (arith, span.1, at.enough, to))

-- The dwords of the loader once the 8 bytes at an address are cleared.
abbrev pub cleared_at : (p : ℕ) → (ℕ → ℕ) → (ℕ → ℕ)
cleared_at p m = store (store m p 0) (p + 4) 0

cleared_at-none :
    (p va : ℕ) (m : ℕ → ℕ) → p ≡ 0x1000 → va < 2 ^ 39 → translate (cleared_at p m) 0x1000 va ≡ none
cleared_at-none p va m e lt =
    let i : 0x1000 + 8 * index 39 va ≡ 0x1000 = omega (arith, lt) in
    let zero : qword (cleared_at p m) 0x1000 ≡ 0 = ground (arith, e) in
    top-eq (cleared_at p m) va 0 (ap (qword (cleared_at p m)) i ∙ zero)

-- The address of the second frame that is taken after `memory_init`.
abbrev pub second_frame : (a l : ℕ) → Frames → (t u : Console) → ℕ
second_frame a l f t u =
    let (g, v) = alloc_frames 1 (memory_init a l f t).0 u in (alloc_frame g v).0

second_frame_lem :
    (a l : ℕ) (f : Frames) (t u : Console)
    → AreBytes f.bitmap
    → f.used_pages ≡ 0
    → second_frame a l f t u ≡ 0x1000
second_frame_lem a l f t u fits cold =
    elim (alloc_frames-nth_frame a l f t u fits cold 1 (omega arith)) [
      | inl h ↦ h.1
      | inr h ↦ absurd (omega (arith, h.0))
    ]

-- From a bitmap of bytes and no page counted: the second frame taken after memory_init is the
-- first page table in use, and once its owner clears its first 8 bytes, every address below 512
-- GB faults.
pub alloc_frame-unmaps :
    (a l : ℕ) (f : Frames) (t u : Console) (labels : Labels) (s : Loader) (va : ℕ)
    → AreBytes f.bitmap
    → f.used_pages ≡ 0
    → va < 2 ^ 39
    → (second_frame a l f t u ≡ (setup_long_mode labels s).cr3)
      × (translate
            (cleared_at (second_frame a l f t u) (setup_long_mode labels s).dwords)
            (setup_long_mode labels s).cr3
            va
          ≡ none)
unfolding setup_long_mode
alloc_frame-unmaps a l f t u labels s va fits cold lt =
    let e = second_frame_lem a l f t u fits cold in
    (e, cleared_at-none (second_frame a l f t u) va (setup_long_mode labels s).dwords e lt)
