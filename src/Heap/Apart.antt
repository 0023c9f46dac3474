-- ===== src/Heap/Apart.antt =====
-- The payloads in use against each other and against the headers.
use zer0s.Prelude.{
  ℕ, ◌+◌, ◌≤◌, ◌≡◌, ◌≢◌, ◌⊎◌, inl, inr, Bool-cases, some, List, [], ◌∷◌, arith, ◌==◌,
}
use zer0s.Console.{Console}
use zer0s.Heap.{Heap, heap_start, heap_init, align8, kmalloc}
use zer0s.Heap.Chunks.{Chunk, extent, spans, Inserted}
use zer0s.Heap.Chain.{Chain-extent}
use zer0s.Heap.Live.{IsHeap, heap_end}
use zer0s.Heap.Listed.{Listed, Listed-outside}
use zer0s.Heap.Alloc.{kmalloc_lem}

-- Payloads in order, apart by at least a header, between two addresses.
abbrev pub Apart : ℕ → ℕ → List (ℕ × ℕ) → Type 0
Apart lo hi [] = Unit
Apart lo hi ((p, z) ∷ ps) = (lo + 24 ≤ p) × (p + z ≤ hi) × Apart (p + z) hi ps

Apart-le : (lo lo' hi : ℕ) (ps : List (ℕ × ℕ)) → lo ≤ lo' → Apart lo' hi ps → Apart lo hi ps
Apart-le lo lo' hi [] le ap = tt
Apart-le lo lo' hi ((p, z) ∷ ps) le ap = (omega (arith, ap.0), ap.1, ap.2)

spans-Apart : (a e : ℕ) (xs : List Chunk) → a + extent xs ≡ e → Apart a e (spans a xs)
unfolding spans extent
spans-Apart a e [] h = tt
spans-Apart a e ((z, u) ∷ xs) h =
    let rest = spans-Apart (a + 24 + z) e xs (omega arith) in
    elim (Bool-cases (u == 0)) [
      | inl free ↦ rw free (Apart-le a (a + 24 + z) e (spans (a + 24 + z) xs) (omega arith) rest)
      | inr busy ↦ rw busy (omega arith, omega arith, rest)
    ]

live-Apart : {h : Heap} {live : List (ℕ × ℕ)} → IsHeap h live → Apart heap_start heap_end live
live-Apart {h} is = rw (← is.used) (
    spans-Apart heap_start heap_end is.chunks
      (Chain-extent h.blocks heap_start heap_start heap_end is.chunks is.chain))

-- Where the payload at `p` stands, in the heap and among the payloads in use behind the call.
pub record IsPlaced (size p : ℕ) (live : List (ℕ × ℕ)) (g : Heap) : Type 0 where
  pub live' : List (ℕ × ℕ)
  pub state : IsHeap g live'
  pub inserted : Inserted (align8 size) p live live'
  pub apart : Apart heap_start heap_end live'
  pub headers : (a : ℕ) → Listed g a → (a + 24 ≤ p) ⊎ (p + inserted.given ≤ a)

-- When `kmalloc` on a well-formed heap returns a pointer other than `NULL` for a size other than 0,
-- the heap is well-formed and its payload has the rounded size at least, stands among those that
-- were in use and overlaps none of them, lies in the heap's area, and overlaps no header that the
-- list of the heap then leads to.
pub kmalloc-Apart :
    (h g : Heap) {live : List (ℕ × ℕ)} (size p : ℕ) (t u : Console)
    → size ≢ 0
    → IsHeap (heap_init h) live
    → kmalloc size h t ≡ some (p, g, u)
    → p ≢ 0
    → IsPlaced size p live g
kmalloc-Apart h g {live} size p t u pos is out ne = elim (kmalloc_lem h size t pos is) [
  | inl r ↦
      let same_pointer : p ≡ r.pointer = ground (arith, r.returned) in
      let same_heap : g ≡ r.heap = ground (arith, r.returned) in
      rw (same_pointer, same_heap)
        (record {
          live' = r.live';
          state = r.state;
          inserted = r.inserted;
          apart = live-Apart r.state;
          headers = λ a l.
              Listed-outside a r.pointer r.inserted.given r.inserted.before r.inserted.behind
                r.state l r.inserted.is;
        })
  | inr r ↦ absurd (ne (ground (arith, r.returned)))
]
