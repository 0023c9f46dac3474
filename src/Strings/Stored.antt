-- ===== src/Strings/Stored.antt =====
-- Bytes and strings that lie in memory.
use zer0s.Prelude.{ℕ, ◌+◌, ◌≤◌, ◌≡◌, ◌≢◌, ◌∙◌, arith, List, [], ◌∷◌, length}

-- The bytes of the list lie in memory from an address on.
unfoldable pub Stored : (ℕ → ℕ) → ℕ → List ℕ → Type 0
Stored memory p [] = Unit
Stored memory p (c ∷ s) = (memory p ≡ c) × Stored memory (p + 1) s

-- A C string: bytes other than 0, and the NUL behind them.
unfoldable pub StoredString : (ℕ → ℕ) → ℕ → List ℕ → Type 0
StoredString memory p [] = memory p ≡ 0
StoredString memory p (c ∷ s) = (memory p ≡ c) × (c ≢ 0) × StoredString memory (p + 1) s

pub StoredString-Stored :
    (memory : ℕ → ℕ) (p : ℕ) (s : List ℕ) → StoredString memory p s → Stored memory p s
unfolding StoredString Stored
StoredString-Stored memory p [] at = tt
StoredString-Stored memory p (c ∷ s) (here, ne, there) =
    (here, StoredString-Stored memory (p + 1) s there)

-- What a string's bytes are does not depend on the rest of memory.
pub StoredString-frame :
    (m m' : ℕ → ℕ) (p : ℕ) (s : List ℕ)
    → ((j : ℕ) → p ≤ j → j ≤ p + length s → m' j ≡ m j)
    → StoredString m p s
    → StoredString m' p s
unfolding StoredString
StoredString-frame m m' p [] same at = same p (omega arith) (omega arith) ∙ at
StoredString-frame m m' p (c ∷ s) same (here, ne, there) = (
  same p (omega arith) (omega arith) ∙ here,
  ne,
  StoredString-frame m m' (p + 1) s (λ j lo hi. same j (omega arith) (omega arith)) there,
)
