-- ===== src/Heap/Chunks.antt =====
-- What the heap stands for: a run of chunks that tile an area, and first-fit allocation in it.
use zer0s.Prelude.{
  ℕ, ◌+◌, ◌-◌, ◌*◌, ◌≤◌, ◌<◌, ◌≡◌, refl, ap, Bool, ◌&&◌, Option, none, some, List, [], ◌∷◌, ◌++◌,
  arith, leb, ◌==◌, if◌then◌else◌, length,
}

-- Payload size, and the flag of the header.
abbrev pub Chunk : Type 0
Chunk = ℕ × ℕ

abbrev pub fits : ℕ → Chunk → Bool
fits size (z, u) = (u == 0) && leb size z

-- The header address of the first free chunk that is large enough, in a run that starts at `a`.
unfoldable pub first_fit : ℕ → ℕ → List Chunk → Option ℕ
first_fit size a [] = none
first_fit size a ((z, u) ∷ xs) = if fits size (z, u) then some a else first_fit size (a + 24 + z) xs

-- The chunks that stand in the place of a chunk that is taken.
unfoldable pub split : ℕ → ℕ → List Chunk
split size z = if leb (size + 56) z then (size, 1) ∷ (z - size - 24, 0) ∷ [] else (z, 1) ∷ []

-- The run with that chunk taken.
unfoldable pub take_first : ℕ → List Chunk → List Chunk
unfolding split
take_first size [] = []
take_first size ((z, u) ∷ xs) =
    if fits size (z, u) then split size z ++ xs else (z, u) ∷ take_first size xs

-- A freed chunk swallows a free one behind it.
unfoldable pub merge : ℕ → List Chunk → List Chunk
merge z [] = (z, 0) ∷ []
merge z ((y, v) ∷ xs) = if v == 0 then (z + 24 + y, 0) ∷ xs else (z, 0) ∷ (y, v) ∷ xs

-- The run with the chunk freed whose header is at `b`.
unfoldable pub release : ℕ → ℕ → List Chunk → List Chunk
unfolding merge
release b a [] = []
release b a ((z, u) ∷ xs) = if a == b then merge z xs else (z, u) ∷ release b (a + 24 + z) xs

-- The payloads in use, as address and size.
unfoldable pub spans : ℕ → List Chunk → List (ℕ × ℕ)
spans a [] = []
spans a ((z, u) ∷ xs) =
    if u == 0 then spans (a + 24 + z) xs else (a + 24, z) ∷ spans (a + 24 + z) xs

-- The bytes of a run, headers included.
unfoldable pub extent : List Chunk → ℕ
extent [] = 0
extent ((z, u) ∷ xs) = 24 + z + extent xs

pub extent-length : (xs : List Chunk) → 24 * length xs ≤ extent xs
unfolding extent
extent-length [] = omega arith
extent-length ((z, u) ∷ xs) = omega (arith, extent-length xs)

pub extent-take_first : (size : ℕ) (xs : List Chunk) → extent (take_first size xs) ≡ extent xs
unfolding extent take_first
extent-take_first size [] = refl
extent-take_first size ((z, u) ∷ xs) = ground (arith, extent-take_first size xs)

pub extent-release : (b a : ℕ) (xs : List Chunk) → extent (release b a xs) ≡ extent xs
unfolding extent release
extent-release b a [] = refl
extent-release b a ((z, u) ∷ []) = ground arith
extent-release b a ((z, u) ∷ (y, v) ∷ xs) =
    ground (arith, extent-release b (a + 24 + z) ((y, v) ∷ xs))

-- Every payload lies behind the start of its run.
pub spans_after :
    (a : ℕ) (xs : List Chunk) (before : List (ℕ × ℕ)) (q z : ℕ) (behind : List (ℕ × ℕ))
    → spans a xs ≡ before ++ (q, z) ∷ behind
    → a + 24 ≤ q
unfolding spans
spans_after a [] [] q z behind e = ground arith
spans_after a [] (c ∷ before) q z behind e = ground arith
spans_after a ((y, u) ∷ xs) [] q z behind e =
    ground (arith, spans_after (a + 24 + y) xs [] q z behind)
spans_after a ((y, u) ∷ xs) (c ∷ before) q z behind e = ground (
  arith,
  spans_after (a + 24 + y) xs (c ∷ before) q z behind,
  spans_after (a + 24 + y) xs before q z behind,
)

-- The payload at `p` of size `z` is new, and all others are as they were.
pub record Inserted (size p : ℕ) (old new : List (ℕ × ℕ)) : Type 0 where
  pub before : List (ℕ × ℕ)
  pub behind : List (ℕ × ℕ)
  pub given : ℕ
  pub was : old ≡ before ++ behind
  pub is : new ≡ before ++ (p, given) ∷ behind
  pub enough : size ≤ given
  pub tight : given < size + 56

pub Inserted-cons :
    {size p : ℕ} {old new : List (ℕ × ℕ)} (c : ℕ × ℕ)
    → Inserted size p old new
    → Inserted size p (c ∷ old) (c ∷ new)
Inserted-cons c r = record {
  before = c ∷ r.before;
  behind = r.behind;
  given = r.given;
  was = ap (λ t. c ∷ t) r.was;
  is = ap (λ t. c ∷ t) r.is;
  enough = r.enough;
  tight = r.tight;
}
