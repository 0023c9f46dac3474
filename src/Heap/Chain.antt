-- ===== src/Heap/Chain.antt =====
-- The headers in memory against the run of chunks that they stand for.
use zer0s.Prelude.{ℕ, zero, suc, ◌+◌, ◌≤◌, ◌<◌, ◌≡◌, some, none, some, List, [], ◌∷◌, arith, length}
use zer0s.Heap.{Block, found, exhausted, find_block}
use zer0s.Heap.Chunks.{Chunk, first_fit, extent}

-- The pointer `p` leads to headers from address `a` on that describe the chunks `xs` one behind
-- the other, up to address `e`, with `NULL` behind the last.
abbrev pub Chain : (ℕ → Block) → ℕ → ℕ → ℕ → List Chunk → Type 0
Chain m p a e [] = (p ≡ 0) × (a ≡ e)
Chain m p a e ((z, u) ∷ xs) =
    (p ≡ a) × ((m a).size ≡ z) × ((m a).used ≡ u) × Chain m (m a).next (a + 24 + z) e xs

pub Chain-extent :
    (m : ℕ → Block) (p a e : ℕ) (xs : List Chunk) → Chain m p a e xs → a + extent xs ≡ e
unfolding extent
Chain-extent m p a e [] c = omega arith
Chain-extent m p a e ((z, u) ∷ xs) c =
    omega (arith, Chain-extent m (m a).next (a + 24 + z) e xs c.3)

-- Headers before the run do not matter to it.
pub Chain-frame :
    (m n : ℕ → Block) (p a e : ℕ) (xs : List Chunk)
    → ((q : ℕ) → a ≤ q → n q ≡ m q)
    → Chain m p a e xs
    → Chain n p a e xs
Chain-frame m n p a e [] same c = c
Chain-frame m n p a e ((z, u) ∷ xs) same c =
    let rest = Chain-frame m n (m a).next (a + 24 + z) e xs (λ q le. same q (omega arith)) c.3 in
    rw (same a (omega arith)) (c.0, c.1, c.2, rest)

-- The walk ends at the first chunk that fits, or at the end.
pub find_block-first_fit :
    (fuel : ℕ) (m : ℕ → Block) (p a e size : ℕ) (xs : List Chunk)
    → 0 < a
    → length xs < fuel
    → Chain m p a e xs
    → find_block fuel p size m ≡ elim (first_fit size a xs) [ none ↦ exhausted | some b ↦ found b ]
unfolding find_block first_fit
find_block-first_fit zero m p a e size xs pos lt c = absurd (omega arith)
find_block-first_fit (suc fuel) m p a e size [] pos lt c = ground arith
find_block-first_fit (suc fuel) m p a e size ((z, u) ∷ xs) pos lt c = ground (
  arith,
  find_block-first_fit fuel m (m a).next (a + 24 + z) e size xs (omega arith) (omega arith) c.3,
)
