-- ===== src/Heap/Take.antt =====
-- Taking the first fit changes the chain as `take_first` changes the chunks.
use zer0s.Prelude.{
  ℕ, ◌+◌, ◌-◌, ◌^◌, ◌≤◌, ◌<◌, ◌≡◌, refl, ap, true, some, inl, inr, Bool-cases, some, List, [], ◌∷◌,
  ◌++◌, arith, leb, u64,
}
use zer0s.Heap.{Block, take_block}
use zer0s.Heap.Chunks.{Chunk, fits, first_fit, split, take_first}
use zer0s.Heap.Chain.{Chain, Chain-extent, Chain-frame}

module _ (m : ℕ → Block) (e : ℕ) (small : e < 2 ^ 63) where
  -- The first fit lies in the run.
  pub first_fit_bounds :
      (p a size : ℕ) (xs : List Chunk) (b : ℕ)
      → Chain m p a e xs
      → first_fit size a xs ≡ some b
      → (a ≤ b) × (b + 24 + size ≤ e)
  unfolding first_fit
  first_fit_bounds p a size [] b c f = cc
  first_fit_bounds p a size ((z, u) ∷ xs) b c f = ground (
    arith,
    Chain-extent m (m a).next (a + 24 + z) e xs c.3,
    first_fit_bounds (m a).next (a + 24 + z) size xs b c.3,
  )

  take_block-before : (b size q : ℕ) → b + 24 + size ≤ e → q < b → take_block b size m q ≡ m q
  unfolding take_block
  take_block-before b size q fit lt = ground arith

  take_block-behind :
      (b size q : ℕ)
      → size ≤ (m b).size
      → b + 24 + (m b).size ≤ e
      → b + 24 + (m b).size ≤ q
      → take_block b size m q ≡ m q
  unfolding take_block
  take_block-behind b size q le fit ge = ground arith

  -- The two headers of a split block.
  take_block-split :
      (b size : ℕ)
      → size + 56 ≤ (m b).size
      → b + 24 + (m b).size ≤ e
      → (take_block b size m b ≡ record { size = size; used = 1; next = b + 24 + size })
        × (take_block b size m (b + 24 + size)
            ≡ record { size = (m b).size - size - 24; used = 0; next = (m b).next })
  unfolding take_block
  take_block-split b size big fit =
      let new : u64 (b + 24 + size) ≡ b + 24 + size = omega arith in
      let test : leb (u64 (size + 24 + 32)) (m b).size ≡ true = ground arith in
      rw (test, new) (ground arith, ground arith)

  -- The header of a block that is taken whole.
  take_block-whole :
      (b size : ℕ)
      → (m b).size < size + 56
      → size ≤ (m b).size
      → b + 24 + (m b).size ≤ e
      → take_block b size m b ≡ record { size = (m b).size; used = 1; next = (m b).next }
  unfolding take_block
  take_block-whole b size less le fit = ground arith

  take_block-head :
      (p a size z u : ℕ) (xs : List Chunk)
      → Chain m p a e ((z, u) ∷ xs)
      → size ≤ z
      → Chain (take_block a size m) p a e (split size z ++ xs)
  unfolding split
  take_block-head p a size z u xs c le =
      let w = take_block a size m in
      let fit : a + 24 + z ≤ e = omega (arith, Chain-extent m (m a).next (a + 24 + z) e xs c.3) in
      let rest : Chain w (m a).next (a + 24 + z) e xs =
        Chain-frame m w (m a).next (a + 24 + z) e xs
          (λ q ge. take_block-behind a size q (omega arith) (omega arith) (omega arith)) c.3 in
      elim (Bool-cases (leb (size + 56) z)) [
        | inl big ↦
            let heads = take_block-split a size (ground arith) (omega arith) in
            let end : a + 24 + size + 24 + (z - size - 24) ≡ a + 24 + z = ground arith in
            rw (big, heads.0)
              (
                c.0,
                refl,
                refl,
                rw heads.1 (refl, ap (λ (t : ℕ). t - size - 24) c.1, refl, rw end rest),
              )
        | inr small ↦
            rw (small, take_block-whole a size (ground arith) (omega arith) (omega arith))
              (c.0, c.1, refl, rest)
      ]

  -- `take_block` at the first fit makes the chain that of `take_first`.
  pub take_block-Chain :
      (p a size : ℕ) (xs : List Chunk) (b : ℕ)
      → Chain m p a e xs
      → first_fit size a xs ≡ some b
      → Chain (take_block b size m) p a e (take_first size xs)
  unfolding first_fit take_first
  take_block-Chain p a size [] b c f = cc
  take_block-Chain p a size ((z, u) ∷ xs) b c f = elim (Bool-cases (fits size (z, u))) [
    | inl yes_fit ↦
        let here : b ≡ a = ground arith in
        rw (yes_fit, here) (take_block-head p a size z u xs c (ground arith))
    | inr no_fit ↦
        let f' : first_fit size (a + 24 + z) xs ≡ some b = ground arith in
        let where_is = first_fit_bounds (m a).next (a + 24 + z) size xs b c.3 f' in
        let rest = take_block-Chain (m a).next (a + 24 + z) size xs b c.3 f' in
        rw (no_fit, take_block-before b size a where_is.1 (omega (arith, where_is.0)))
          (c.0, c.1, c.2, rest)
  ]
