-- ===== src/Heap/Listed.antt =====
-- The headers that a walk along the list of the heap meets.
use mathlib.Core.Path.{subst}
use zer0s.Prelude.{ℕ, ◌+◌, ◌≤◌, ◌≡◌, ◌≢◌, ◌⊎◌, inl, inr, sym, ap, ◌∙◌, List, [], ◌∷◌, ◌++◌, arith}
use zer0s.Heap.{Heap, Block, heap_start}
use zer0s.Heap.Chunks.{Chunk, spans, spans_after}
use zer0s.Heap.Chain.{Chain}
use zer0s.Heap.Live.{IsHeap, NoneFits, heap_end}

-- The head of the list, and what the `next` pointers lead to.
pub data Listed (h : Heap) : ℕ → Type 0 where
  at_head : Listed h h.head
  following : {a : ℕ} → Listed h a → (h.blocks a).next ≢ 0 → Listed h (h.blocks a).next

-- A chunk of the run has its header at `q`.
abbrev IsStart : ℕ → List Chunk → ℕ → Type 0
IsStart a [] q = ⊥
IsStart a ((z, u) ∷ xs) q = (q ≡ a) ⊎ IsStart (a + 24 + z) xs q

IsStart-le : (a q : ℕ) (xs : List Chunk) → IsStart a xs q → a ≤ q
IsStart-le a q [] at = elim at [ ]
IsStart-le a q ((z, u) ∷ xs) (inl e) = omega (arith, e)
IsStart-le a q ((z, u) ∷ xs) (inr at) = omega (arith, IsStart-le (a + 24 + z) q xs at)

Chain-first :
    (m : ℕ → Block) (p a e : ℕ) (xs : List Chunk) → Chain m p a e xs → p ≢ 0 → IsStart a xs p
Chain-first m p a e [] c ne = absurd (ne c.0)
Chain-first m p a e ((z, u) ∷ xs) c ne = inl c.0

Chain-next :
    (m : ℕ → Block) (p a e q : ℕ) (xs : List Chunk)
    → Chain m p a e xs
    → IsStart a xs q
    → (m q).next ≢ 0
    → IsStart a xs (m q).next
Chain-next m p a e q [] c at ne = elim at [ ]
Chain-next m p a e q ((z, u) ∷ xs) c (inl same) ne = inr (
    subst (λ (x : ℕ). IsStart (a + 24 + z) xs (m x).next) (sym same)
      (Chain-first m (m a).next (a + 24 + z) e xs c.3
        (λ none. ne (ap (λ (x : ℕ). (m x).next) same ∙ none))))
Chain-next m p a e q ((z, u) ∷ xs) c (inr at) ne =
    inr (Chain-next m (m a).next (a + 24 + z) e q xs c.3 at ne)

pub Listed-IsStart :
    {h : Heap} {live : List (ℕ × ℕ)} (is : IsHeap h live) (q : ℕ)
    → Listed h q
    → IsStart heap_start is.chunks q
Listed-IsStart {h} is q at_head =
    subst (λ (x : ℕ). IsStart heap_start is.chunks x) (sym is.head)
      (Chain-first h.blocks heap_start heap_start heap_end is.chunks is.chain (omega arith))
Listed-IsStart {h} is q (following {a} l ne) =
    Chain-next h.blocks heap_start heap_start heap_end a is.chunks is.chain (Listed-IsStart is a l)
      ne

-- A header lies below a payload in use or behind it.
IsStart-spans :
    (a q p z : ℕ) (xs : List Chunk) (before behind : List (ℕ × ℕ))
    → IsStart a xs q
    → spans a xs ≡ before ++ (p, z) ∷ behind
    → (q + 24 ≤ p) ⊎ (p + z ≤ q)
unfolding spans
IsStart-spans a q p z [] before behind at e = elim at [ ]
IsStart-spans a q p z ((y, u) ∷ xs) [] behind (inl same) e =
    ground (arith, same, spans_after (a + 24 + y) xs [] p z behind)
IsStart-spans a q p z ((y, u) ∷ xs) [] behind (inr at) e =
    ground
      (arith, IsStart-le (a + 24 + y) q xs at, IsStart-spans (a + 24 + y) q p z xs [] behind at)
IsStart-spans a q p z ((y, u) ∷ xs) (c ∷ before) behind (inl same) e = ground (
  arith,
  same,
  spans_after (a + 24 + y) xs (c ∷ before) p z behind,
  spans_after (a + 24 + y) xs before p z behind,
)
IsStart-spans a q p z ((y, u) ∷ xs) (c ∷ before) behind (inr at) e = ground (
  arith,
  IsStart-spans (a + 24 + y) q p z xs (c ∷ before) behind at,
  IsStart-spans (a + 24 + y) q p z xs before behind at,
)

-- A free header holds every size that is small enough.
IsStart-free :
    (m : ℕ → Block) (p a e q : ℕ) (xs : List Chunk)
    → Chain m p a e xs
    → IsStart a xs q
    → (m q).used ≡ 0
    → ¬ NoneFits 0 xs
IsStart-free m p a e q [] c at free none = at
IsStart-free m p a e q ((z, u) ∷ xs) c (inl same) free none =
    ground (arith, none.0, c.2, ap (λ (x : ℕ). (m x).used) same, free)
IsStart-free m p a e q ((z, u) ∷ xs) c (inr at) free none =
    IsStart-free m (m a).next (a + 24 + z) e q xs c.3 at free none.1

pub Listed-free :
    {h : Heap} {live : List (ℕ × ℕ)} (is : IsHeap h live) (q : ℕ)
    → Listed h q
    → (h.blocks q).used ≡ 0
    → ¬ NoneFits 0 is.chunks
Listed-free {h} is q l free none =
    IsStart-free h.blocks heap_start heap_start heap_end q is.chunks is.chain
      (Listed-IsStart is q l) free none

pub Listed-outside :
    {h : Heap} {live : List (ℕ × ℕ)} (q p z : ℕ) (before behind : List (ℕ × ℕ))
    → IsHeap h live
    → Listed h q
    → live ≡ before ++ (p, z) ∷ behind
    → (q + 24 ≤ p) ⊎ (p + z ≤ q)
Listed-outside {h} q p z before behind is l e =
    IsStart-spans heap_start q p z is.chunks before behind (Listed-IsStart is q l) (is.used ∙ e)
