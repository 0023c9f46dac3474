-- ===== src/Heap/Live.antt =====
-- The heap seen by its callers: which payloads are in use.
use zer0s.Prelude.{
  ℕ, ◌+◌, ◌%◌, ◌^◌, ◌≤◌, ◌<◌, ◌≡◌, refl, true, false, none, some, List, [], ◌∷◌, arith, ◌==◌,
}
use zer0s.Heap.{Heap, heap_start, heap_size, align8, heap_init}
use zer0s.Heap.Chunks.{Chunk, fits, first_fit, take_first, release, spans}
use zer0s.Heap.Chain.{Chain}

abbrev pub heap_end : ℕ
heap_end = 0x2000000 + 24 + 0x800000

-- Every chunk size is a multiple of 8.
abbrev pub IsAligned : List Chunk → Type 0
IsAligned [] = Unit
IsAligned ((z, u) ∷ xs) = (z % 8 ≡ 0) × IsAligned xs

-- The heap is set up, its headers tile its area, and `live` are the payloads in use, by address
-- and size, in the order of their addresses.
pub record IsHeap (h : Heap) (live : List (ℕ × ℕ)) : Type 0 where
  pub chunks : List Chunk
  pub head : h.head ≡ heap_start
  pub chain : Chain h.blocks heap_start heap_start heap_end chunks
  pub aligned : IsAligned chunks
  pub used : spans heap_start chunks ≡ live

-- No free chunk holds `size` bytes.
abbrev pub NoneFits : ℕ → List Chunk → Type 0
NoneFits size [] = Unit
NoneFits size (c ∷ xs) = (fits size c ≡ false) × NoneFits size xs

-- The first call sets the heap up with nothing in use.
pub heap_init-IsHeap : (h : Heap) → h.head ≡ 0 → IsHeap (heap_init h) []
unfolding heap_init spans
heap_init-IsHeap h fresh = rw (let test : (h.head == 0) ≡ true = ground arith in test) (record {
  chunks = (heap_size, 0) ∷ [];
  head = refl;
  chain = (refl, refl, refl, (refl, refl));
  aligned = (refl, tt);
  used = refl;
})

-- Later calls find it set up.
pub heap_init-id : {h : Heap} {live : List (ℕ × ℕ)} → IsHeap h live → heap_init h ≡ h
unfolding heap_init
heap_init-id is = ground (arith, is.head)

pub align8_bounds :
    (size : ℕ)
    → size + 7 < 2 ^ 64
    → (size ≤ align8 size) × (align8 size < size + 8) × (align8 size % 8 ≡ 0)
unfolding align8
align8_bounds size lt = omega arith

pub align8-mod : (size : ℕ) → align8 size % 8 ≡ 0
unfolding align8
align8-mod size = omega arith

pub take_first-IsAligned :
    (size : ℕ) (xs : List Chunk) → size % 8 ≡ 0 → IsAligned xs → IsAligned (take_first size xs)
unfolding take_first
take_first-IsAligned size [] h al = tt
take_first-IsAligned size ((z, u) ∷ xs) h al = ground (arith, take_first-IsAligned size xs h al.1)

pub release-IsAligned : (b a : ℕ) (xs : List Chunk) → IsAligned xs → IsAligned (release b a xs)
unfolding release
release-IsAligned b a [] al = tt
release-IsAligned b a ((z, u) ∷ []) al = ground arith
release-IsAligned b a ((z, u) ∷ (y, v) ∷ xs) al =
    ground (arith, release-IsAligned b (a + 24 + z) ((y, v) ∷ xs) al.1)

pub first_fit-mod :
    (size a : ℕ) (xs : List Chunk) (b : ℕ)
    → a % 8 ≡ 0
    → IsAligned xs
    → first_fit size a xs ≡ some b
    → b % 8 ≡ 0
unfolding first_fit
first_fit-mod size a [] b h al e = cc
first_fit-mod size a ((z, u) ∷ xs) b h al e =
    ground (arith, first_fit-mod size (a + 24 + z) xs b (omega (arith, al.0)) al.1)

pub NoneFits-first_fit :
    (size a : ℕ) (xs : List Chunk) → NoneFits size xs → first_fit size a xs ≡ none
unfolding first_fit
NoneFits-first_fit size a [] none_fit = refl
NoneFits-first_fit size a ((z, u) ∷ xs) none_fit =
    ground (arith, none_fit.0, NoneFits-first_fit size (a + 24 + z) xs none_fit.1)

pub first_fit-NoneFits :
    (size a : ℕ) (xs : List Chunk) → first_fit size a xs ≡ none → NoneFits size xs
unfolding first_fit
first_fit-NoneFits size a [] e = tt
first_fit-NoneFits size a ((z, u) ∷ xs) e = ground (arith, first_fit-NoneFits size (a + 24 + z) xs)
