-- ===== src/Heap/Release.antt =====
-- Freeing a block changes the chain as `release` changes the chunks.
use zer0s.Prelude.{
  ℕ, ◌+◌, ◌^◌, ◌≤◌, ◌<◌, ◌≡◌, ◌≢◌, ◌⊎◌, refl, true, false, ◌&&◌, inl, inr, Bool-cases, List, [],
  ◌∷◌, ◌++◌, arith, ◌==◌, not,
}
use zer0s.Heap.{Block, free_block}
use zer0s.Heap.Chunks.{Chunk, merge, release, spans}
use zer0s.Heap.Chain.{Chain, Chain-extent, Chain-frame}

-- A header stands at `b` in the run from `a` on.
abbrev pub IsHeader : ℕ → ℕ → List Chunk → Type 0
IsHeader b a [] = ⊥
IsHeader b a ((z, u) ∷ xs) = (a ≡ b) ⊎ IsHeader b (a + 24 + z) xs

-- A payload in use has its header in the run.
pub IsHeader-of_span :
    (a : ℕ) (xs : List Chunk) (before : List (ℕ × ℕ)) (b z : ℕ) (behind : List (ℕ × ℕ))
    → spans a xs ≡ before ++ (b + 24, z) ∷ behind
    → IsHeader b a xs
unfolding spans
IsHeader-of_span a [] [] b z behind e = cc
IsHeader-of_span a [] (c ∷ before) b z behind e = cc
IsHeader-of_span a ((y, u) ∷ xs) [] b z behind e = elim (Bool-cases (u == 0)) [
  | inl free ↦ inr (IsHeader-of_span (a + 24 + y) xs [] b z behind (ground arith))
  | inr busy ↦ inl (ground arith)
]
IsHeader-of_span a ((y, u) ∷ xs) (c ∷ before) b z behind e = elim (Bool-cases (u == 0)) [
  | inl free ↦ inr (IsHeader-of_span (a + 24 + y) xs (c ∷ before) b z behind (ground arith))
  | inr busy ↦ inr (IsHeader-of_span (a + 24 + y) xs before b z behind (ground arith))
]

IsHeader-le : (b a : ℕ) (xs : List Chunk) → IsHeader b a xs → a ≤ b
IsHeader-le b a [] h = absurd h
IsHeader-le b a ((z, u) ∷ xs) (inl e) = omega arith
IsHeader-le b a ((z, u) ∷ xs) (inr h) = omega (arith, IsHeader-le b (a + 24 + z) xs h)

free_block-ne : (m : ℕ → Block) (b q : ℕ) → q ≢ b → free_block b m q ≡ m q
unfolding free_block
free_block-ne m b q ne = ground arith

module _ (m : ℕ → Block) (b : ℕ) where
  -- The freed header where the next block is free, and where it is not.
  free_block-merges :
      (next : ℕ)
      → (m b).next ≡ next
      → next ≢ 0
      → (m next).used ≡ 0
      → (m b).size + 24 + (m next).size < 2 ^ 64
      → free_block b m b
        ≡ record { size = (m b).size + 24 + (m next).size; used = 0; next = (m next).next }
  unfolding free_block
  free_block-merges next e ne free lt =
      let test : (not ((m b).next == 0) && ((m (m b).next).used == 0)) ≡ true =
        rw e (ground arith) in
      rw test (rw e (ground arith))

  free_block-keeps :
      ((m b).next ≡ 0) ⊎ ((m (m b).next).used ≢ 0)
      → free_block b m b ≡ record { size = (m b).size; used = 0; next = (m b).next }
  unfolding free_block
  free_block-keeps h = ground arith

module _ (m : ℕ → Block) (e : ℕ) (small : e < 2 ^ 63) where
  free_block-head :
      (p a z u : ℕ) (xs : List Chunk)
      → 0 < a
      → Chain m p a e ((z, u) ∷ xs)
      → Chain (free_block a m) p a e (merge z xs)
  unfolding merge
  free_block-head p a z u [] pos c = rw (free_block-keeps m a (inl c.3.0)) (c.0, c.1, refl, c.3)
  free_block-head p a z u ((y, v) ∷ xs) pos c =
      let b = a + 24 + z in
      let w = free_block a m in
      let fit = Chain-extent m (m b).next (b + 24 + y) e xs c.3.3 in
      let rest : Chain w (m b).next (b + 24 + y) e xs =
        Chain-frame m w (m b).next (b + 24 + y) e xs (λ q ge. free_block-ne m a q (omega arith))
          c.3.3 in
      elim (Bool-cases (v == 0)) [
        | inl free ↦
            let end : a + 24 + (z + 24 + y) ≡ b + 24 + y = omega arith in
            let size : (m a).size + 24 + (m b).size ≡ z + 24 + y = omega (arith, c.1, c.3.1) in
            let head =
              free_block-merges m a b c.3.0 (omega arith) (ground (arith, c.3.2))
                (omega (arith, size, fit)) in
            rw (free, head) (c.0, size, refl, rw end rest)
        | inr busy ↦
            let taken : (m (m a).next).used ≢ 0 = rw c.3.0 (ground (arith, c.3.2)) in
            let next_same : w b ≡ m b = free_block-ne m a b (omega arith) in
            rw (busy, free_block-keeps m a (inr taken))
              (c.0, c.1, refl, (c.3.0, rw next_same c.3.1, rw next_same c.3.2, rw next_same rest))
      ]

  -- `free_block` of a header of the run makes the chain that of `release`.
  pub free_block-Chain :
      (p a b : ℕ) (xs : List Chunk)
      → 0 < a
      → Chain m p a e xs
      → IsHeader b a xs
      → Chain (free_block b m) p a e (release b a xs)
  unfolding release
  free_block-Chain p a b [] pos c h = absurd h
  free_block-Chain p a b ((z, u) ∷ xs) pos c (inl eq) =
      let test : (a == b) ≡ true = ground arith in
      rw (test, ← eq) (free_block-head p a z u xs pos c)
  free_block-Chain p a b ((z, u) ∷ xs) pos c (inr h) =
      let le = IsHeader-le b (a + 24 + z) xs h in
      let test : (a == b) ≡ false = ground arith in
      let rest = free_block-Chain (m a).next (a + 24 + z) b xs (omega arith) c.3 h in
      rw (test, free_block-ne m b a (omega arith)) (c.0, c.1, c.2, rest)

  -- A header of the run lies before its end.
  pub IsHeader-lt : (p a b : ℕ) (xs : List Chunk) → Chain m p a e xs → IsHeader b a xs → b + 24 ≤ e
  IsHeader-lt p a b [] c h = absurd h
  IsHeader-lt p a b ((z, u) ∷ xs) c (inl eq) =
      omega (arith, Chain-extent m (m a).next (a + 24 + z) e xs c.3)
  IsHeader-lt p a b ((z, u) ∷ xs) c (inr h) = IsHeader-lt (m a).next (a + 24 + z) b xs c.3 h
