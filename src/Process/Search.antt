-- ===== src/Process/Search.antt =====
-- The search for a free slot, and the slots that it passes.
use zer0s.Prelude.{
  ℕ, zero, suc, ◌+◌, ◌≤◌, ◌<◌, ◌≡◌, refl, inl, inr, Bool-cases, true, false, none, some, arith,
  ◌==◌,
}
use zer0s.Process.{Process, is_free, find_free_slot}

-- The slots from `i` to `n` that the search passes.
pub record IsSearched (m : ℕ → Process) (i n s : ℕ) : Type 0 where
  pub below : s < n
  pub free : is_free (m s) ≡ true
  pub taken : (j : ℕ) → i ≤ j → j < s → is_free (m j) ≡ false

pub find_free_slot-some :
    (left i n s : ℕ) (m : ℕ → Process)
    → i + left ≡ n
    → find_free_slot left i m ≡ some s
    → IsSearched m i n s
unfolding find_free_slot
find_free_slot-some zero i n s m e f = cc
find_free_slot-some (suc left) i n s m e f = elim (Bool-cases (is_free (m i))) [
  | inl free ↦
      let here : s ≡ i = ground arith in
      rw here (record {
        below = omega arith;
        free = free;
        taken = λ j ge lt. absurd (omega (arith, ge, lt));
      })
  | inr used ↦
      let rest = find_free_slot-some left (i + 1) n s m (omega arith) (ground arith) in
      record {
        below = rest.below;
        free = rest.free;
        taken = λ j ge lt. elim (Bool-cases (i == j)) [
          | inl same ↦ ground (arith, same, used)
          | inr other ↦ rest.taken j (ground (arith, other, ge)) lt
        ];
      }
]

pub find_free_slot-none :
    (left i : ℕ) (m : ℕ → Process)
    → find_free_slot left i m ≡ none
    → (j : ℕ) → i ≤ j
    → j < i + left
    → is_free (m j) ≡ false
unfolding find_free_slot
find_free_slot-none zero i m f j ge lt = absurd (omega (arith, ge, lt))
find_free_slot-none (suc left) i m f j ge lt = elim (Bool-cases (i == j)) [
  | inl same ↦ ground (arith, same, f)
  | inr other ↦
      find_free_slot-none left (i + 1) m (ground arith) j (ground (arith, other, ge))
        (omega (arith, lt))
]

pub taken-none :
    (left i : ℕ) (m : ℕ → Process)
    → ((j : ℕ) → i ≤ j → j < i + left → is_free (m j) ≡ false)
    → find_free_slot left i m ≡ none
unfolding find_free_slot
taken-none zero i m all = refl
taken-none (suc left) i m all = ground (
  arith,
  all i (omega arith) (omega arith),
  taken-none left (i + 1) m (λ j ge lt. all j (omega (arith, ge)) (omega (arith, lt))),
)
