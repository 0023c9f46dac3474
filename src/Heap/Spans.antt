-- ===== src/Heap/Spans.antt =====
-- Taking and freeing a chunk leave the payloads in use of all other chunks alone.
use zer0s.Prelude.{
  ℕ, ◌+◌, ◌-◌, ◌≤◌, ◌≡◌, refl, true, some, inl, inr, Bool-cases, some, List, [], ◌∷◌, ◌++◌, arith,
  leb, ◌==◌,
}
use zer0s.Heap.Chunks.{
  Chunk, fits, first_fit, split, take_first, merge, release, spans, spans_after, Inserted,
  Inserted-cons,
}

split-Inserted :
    (size z a : ℕ) (xs : List Chunk)
    → size ≤ z
    → Inserted size (a + 24) (spans (a + 24 + z) xs) (spans a (split size z ++ xs))
unfolding spans split
split-Inserted size z a xs le = elim (Bool-cases (leb (size + 56) z)) [
  | inl big ↦ rw big (record {
    before = [];
    behind = spans (a + 24 + z) xs;
    given = size;
    was = refl;
    is = let e : a + 24 + size + 24 + (z - size - 24) ≡ a + 24 + z = ground arith in rw e;
    enough = omega arith;
    tight = omega arith;
  })
  | inr small ↦ rw small (record {
    before = [];
    behind = spans (a + 24 + z) xs;
    given = z;
    was = refl;
    is = refl;
    enough = le;
    tight = ground arith;
  })
]

-- First fit adds one payload: it starts at the chunk found, is large enough, and wastes less than
-- 56 bytes.
pub take_first-Inserted :
    (size a : ℕ) (xs : List Chunk) (b : ℕ)
    → first_fit size a xs ≡ some b
    → Inserted size (b + 24) (spans a xs) (spans a (take_first size xs))
unfolding spans first_fit take_first
take_first-Inserted size a [] b e = cc
take_first-Inserted size a ((z, u) ∷ xs) b e = elim (Bool-cases (fits size (z, u))) [
  | inl yes_fit ↦
      let free : (u == 0) ≡ true = ground arith in
      let here : b ≡ a = ground arith in
      rw (yes_fit, free, here) (split-Inserted size z a xs (ground arith))
  | inr no_fit ↦
      let rest = take_first-Inserted size (a + 24 + z) xs b (ground arith) in
      rw no_fit (elim (Bool-cases (u == 0)) [
        | inl free ↦ rw free rest
        | inr busy ↦ rw busy (Inserted-cons (a + 24, z) rest)
      ])
]

spans-merge : (z a : ℕ) (xs : List Chunk) → spans a (merge z xs) ≡ spans (a + 24 + z) xs
unfolding spans merge
spans-merge z a [] = refl
spans-merge z a ((y, v) ∷ xs) = elim (Bool-cases (v == 0)) [
  | inl free ↦ let e : a + 24 + (z + 24 + y) ≡ a + 24 + z + 24 + y = omega arith in rw free (rw e)
  | inr busy ↦ rw busy (rw busy)
]

-- Freeing removes the payload behind the header at `b`, and no other.
pub spans-release :
    (b a : ℕ) (xs : List Chunk) (before : List (ℕ × ℕ)) (z : ℕ) (behind : List (ℕ × ℕ))
    → spans a xs ≡ before ++ (b + 24, z) ∷ behind
    → spans a (release b a xs) ≡ before ++ behind
unfolding spans release
spans-release b a [] [] z behind e = cc
spans-release b a [] (c ∷ before) z behind e = cc
spans-release b a ((y, u) ∷ xs) [] z behind e = ground (
  arith,
  spans-merge y a xs,
  spans_after (a + 24 + y) xs [] (b + 24) z behind,
  spans-release b (a + 24 + y) xs [] z behind,
)
spans-release b a ((y, u) ∷ xs) (c ∷ before) z behind e = ground (
  arith,
  spans_after (a + 24 + y) xs before (b + 24) z behind,
  spans_after (a + 24 + y) xs (c ∷ before) (b + 24) z behind,
  spans-release b (a + 24 + y) xs before z behind,
  spans-release b (a + 24 + y) xs (c ∷ before) z behind,
)
