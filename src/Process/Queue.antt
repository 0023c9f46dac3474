-- ===== src/Process/Queue.antt =====
-- The ready queue as a list of slots, linked through `next`.
use zer0s.Prelude.{
  ℕ, zero, suc, ◌<◌, ◌≡◌, refl, Bool, true, false, ◌||◌, Option, none, some, List, [], ◌∷◌, ◌++◌,
  arith, ◌==◌, length,
}
use zer0s.Process.{Process, Ptr, set_next, append_last}

-- From `p` the `next` pointers lead through the slots `xs` to `NULL`.
abbrev pub Linked : (ℕ → Process) → Ptr → List ℕ → Type 0
Linked m p [] = p ≡ none
Linked m p (x ∷ xs) = (p ≡ some x) × Linked m (m x).next xs

abbrev pub has : ℕ → List ℕ → Bool
has a [] = false
has a (x ∷ xs) = (a == x) || has a xs

-- No slot stands in the list twice.
abbrev pub Distinct : List ℕ → Type 0
Distinct [] = Unit
Distinct (x ∷ xs) = (has x xs ≡ false) × Distinct xs

-- Every slot of the list satisfies the predicate.
abbrev pub All : (ℕ → Type 0) → List ℕ → Type 0
All P [] = Unit
All P (x ∷ xs) = P x × All P xs

pub All-mono :
    (P Q : ℕ → Type 0) (xs : List ℕ) → ((x : ℕ) → has x xs ≡ true → P x → Q x) → All P xs → All Q xs
All-mono P Q [] f h = tt
All-mono P Q (x ∷ xs) f h =
    (f x (ground arith) h.0, All-mono P Q xs (λ y i. f y (ground arith)) h.1)

pub All-append : (P : ℕ → Type 0) (xs ys : List ℕ) → All P xs → All P ys → All P (xs ++ ys)
All-append P [] ys h k = k
All-append P (x ∷ xs) ys h k = (h.0, All-append P xs ys h.1 k)

pub has-append : (a : ℕ) (xs ys : List ℕ) → has a (xs ++ ys) ≡ (has a xs || has a ys)
has-append a [] ys = refl
has-append a (x ∷ xs) ys = ground (arith, has-append a xs ys)

pub Distinct-snoc : (xs : List ℕ) (c : ℕ) → Distinct xs → has c xs ≡ false → Distinct (xs ++ c ∷ [])
Distinct-snoc [] c d out = (refl, tt)
Distinct-snoc (x ∷ xs) c d out =
    (ground (arith, has-append x xs (c ∷ []), d.0), Distinct-snoc xs c d.1 (ground arith))

-- A change that spares the slots of a list spares the list.
pub Linked-frame :
    (m n : ℕ → Process) (p : Ptr) (xs : List ℕ)
    → ((x : ℕ) → has x xs ≡ true → (n x).next ≡ (m x).next)
    → Linked m p xs
    → Linked n p xs
Linked-frame m n p [] same l = l
Linked-frame m n p (x ∷ xs) same l = (
  l.0,
  rw (same x (ground arith)) (Linked-frame m n (m x).next xs (λ y i. same y (ground arith)) l.1),
)

-- What `append_last` and the clearing of the new end's `next` leave.
pub record Appended (m : ℕ → Process) (x : ℕ) (xs : List ℕ) (c : ℕ) (r : Option (ℕ → Process))
    : Type 0 where
  pub after : ℕ → Process
  pub returned : r ≡ some after
  pub linked : Linked (set_next c none after) (some x) (x ∷ xs ++ c ∷ [])
  pub same_but_next : (q : ℕ) → set_next q none after q ≡ set_next q none m q
  pub elsewhere : (q : ℕ) → has q (x ∷ xs) ≡ false → after q ≡ m q

-- With enough fuel the walk appends the process to the queue.
pub append_last-Appended :
    (fuel x c : ℕ) (xs : List ℕ) (m : ℕ → Process)
    → length xs < fuel
    → Linked m (some x) (x ∷ xs)
    → Distinct (x ∷ xs)
    → has c (x ∷ xs) ≡ false
    → Appended m x xs c (append_last fuel x c m)
unfolding append_last set_next
append_last-Appended zero x c xs m lt l d out = absurd (omega arith)
append_last-Appended (suc fuel) x c [] m lt l d out =
    rw (l.1, append_last)
      (record {
        after = set_next x (some c) m;
        returned = refl;
        linked = ground arith;
        same_but_next = λ q. ground arith;
        elsewhere = λ q o. ground arith;
      })
append_last-Appended (suc fuel) x c (y ∷ ys) m lt l d out =
    let rest = append_last-Appended fuel y c ys m (omega arith) (refl, l.1.1) d.1 (ground arith) in
    rw (l.1.0, append_last)
      (record {
        after = rest.after;
        returned = rest.returned;
        linked = (refl, (ground (arith, rest.elsewhere x, l.1.0), rest.linked.1));
        same_but_next = rest.same_but_next;
        elsewhere = λ q o. rest.elsewhere q (ground arith);
      })
