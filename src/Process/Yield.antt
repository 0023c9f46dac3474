-- ===== src/Process/Yield.antt =====
-- `process_yield` on a well-formed scheduler.
use zer0s.Prelude.{
  ℕ, zero, suc, ◌+◌, ◌≤◌, ◌<◌, ◌≡◌, ◌≢◌, inl, inr, Bool-cases, ap, refl, true, false, Option, none,
  some, List, [], ◌∷◌, ◌++◌, arith, ◌==◌, if◌then◌else◌, length, u64,
}
use zer0s.Process.{
  Process, Processes, set_state, set_next, append_last, requeue, dispatch, yield_from,
  process_yield, proc_ready, proc_running, walk_fuel,
}
use zer0s.Process.Queue.{
  Linked, has, Distinct, All, All-mono, All-append, has-append, Distinct-snoc, Linked-frame,
  Appended, append_last-Appended,
}

-- Process `c` runs, and the ready queue is `q`, without repetition.
pub record IsScheduled (ps : Processes) (c : ℕ) (q : List ℕ) : Type 0 where
  pub current : ps.current_process ≡ some c
  pub running : (ps.table c).state ≡ proc_running
  pub linked : Linked ps.table ps.ready_queue q
  pub ready : All (λ x. (ps.table x).state ≡ proc_ready) q
  pub distinct : Distinct (c ∷ q)
  pub inside : All (λ x. x < 256) (c ∷ q)

remove : ℕ → List ℕ → List ℕ
remove k [] = []
remove k (x ∷ xs) = if k == x then xs else x ∷ remove k xs

length-remove : (k : ℕ) (xs : List ℕ) → length xs ≤ suc (length (remove k xs))
unfolding remove
length-remove k [] = omega arith
length-remove k (x ∷ xs) = ground (arith, length-remove k xs)

has-remove : (k a : ℕ) (xs : List ℕ) → has a xs ≡ false → has a (remove k xs) ≡ false
unfolding remove
has-remove k a [] h = refl
has-remove k a (x ∷ xs) h = ground (arith, has-remove k a xs)

Distinct-remove : (k : ℕ) (xs : List ℕ) → Distinct xs → Distinct (remove k xs)
unfolding remove
Distinct-remove k [] d = tt
Distinct-remove k (x ∷ xs) d = ground (arith, Distinct-remove k xs d.1, has-remove k x xs d.0)

below-pred :
    (n : ℕ) (xs : List ℕ) → has n xs ≡ false → All (λ x. x < suc n) xs → All (λ x. x < n) xs
below-pred n xs out =
    All-mono (λ y. y < suc n) (λ y. y < n) xs (λ y i lt. let ne : y ≢ n = λ e. cc in omega arith)

below-remove :
    (n : ℕ) (xs : List ℕ) → Distinct xs → All (λ x. x < suc n) xs → All (λ x. x < n) (remove n xs)
unfolding remove
below-remove n [] d h = tt
below-remove n (x ∷ xs) d h = elim (Bool-cases (n == x)) [
  | inl e ↦ let eq : n ≡ x = ground arith in rw e (below-pred n xs (rw eq d.0) h.1)
  | inr e ↦ rw e (ground arith, below-remove n xs d.1 h.1)
]

-- A list of distinct numbers below `n` has at most `n` of them.
length-le_of_Distinct : (n : ℕ) (xs : List ℕ) → Distinct xs → All (λ x. x < n) xs → length xs ≤ n
length-le_of_Distinct zero [] d h = omega arith
length-le_of_Distinct zero (x ∷ xs) d h = absurd (omega arith)
length-le_of_Distinct (suc n) xs d h = omega (
  arith,
  length-remove n xs,
  length-le_of_Distinct n (remove n xs) (Distinct-remove n xs d) (below-remove n xs d h),
)

fuel_enough : {ps : Processes} {c : ℕ} {q : List ℕ} → IsScheduled ps c q → length q < walk_fuel
fuel_enough {c} {q} is = omega (arith, length-le_of_Distinct 256 (c ∷ q) is.distinct is.inside)

-- What a yield to the head of the queue leaves: that process runs and has one tick more, the one
-- that ran stands at the end of the queue, and a process outside both is not touched.
pub record Rotated (ps : Processes) (c x : ℕ) (q : List ℕ) (r : Option Processes) : Type 0 where
  pub after : Processes
  pub returned : r ≡ some after
  pub scheduled : IsScheduled after x (q ++ c ∷ [])
  pub ticked : (after.table x).total_ticks ≡ u64 ((ps.table x).total_ticks + 1)
  pub elsewhere : (p : ℕ) → has p (c ∷ x ∷ q) ≡ false → after.table p ≡ ps.table p

module _ {ps : Processes} {c x : ℕ} {q : List ℕ} (is : IsScheduled ps c (x ∷ q)) where
  abbrev readied : ℕ → Process
  readied = set_state c proc_ready ps.table

  next-readied : (y : ℕ) → (readied y).next ≡ (ps.table y).next
  unfolding set_state
  next-readied y = ground arith

  state-readied : (y : ℕ) → (readied y).state ≡ (if c == y then proc_ready else (ps.table y).state)
  unfolding set_state
  state-readied y = ground arith

  appended : Appended readied x q c (append_last walk_fuel x c readied)
  appended =
      append_last-Appended walk_fuel x c q readied (omega (arith, fuel_enough is))
        (
          refl,
          rw (next-readied x) (
              Linked-frame ps.table readied (ps.table x).next q (λ y i. next-readied y)
                is.linked.1),
        )
        is.distinct.1 is.distinct.0

  process_yield-eq :
      process_yield ps ≡ some (dispatch x (record ps { table = set_next c none appended.after }))
  unfolding process_yield requeue dispatch
  process_yield-eq =
      let test : ((ps.table c).state == proc_running) ≡ true = rw is.running in
      rw (is.linked.0, yield_from) (rw (is.current, requeue) (rw test (rw appended.returned)))

  abbrev queued : ℕ → Process
  queued = set_next c none appended.after

  state-queued : (y : ℕ) → (queued y).state ≡ (readied y).state
  unfolding set_next
  state-queued y = ground (arith, ap (λ (p : Process). p.state) (appended.same_but_next y))

  ticks-queued : (y : ℕ) → (queued y).total_ticks ≡ (ps.table y).total_ticks
  unfolding set_next set_state
  ticks-queued y = ground (arith, ap (λ (p : Process). p.total_ticks) (appended.same_but_next y))

  queued-elsewhere : (p : ℕ) → has p (c ∷ x ∷ q) ≡ false → queued p ≡ ps.table p
  unfolding set_next set_state
  queued-elsewhere p out = ground (arith, appended.elsewhere p)

  -- On a well-formed scheduler with another process in the queue, `process_yield` returns and
  -- rotates the processes by one.
  pub process_yield_rotates : Rotated ps c x q (process_yield ps)
  unfolding dispatch
  process_yield_rotates = record {
    after = dispatch x (record ps { table = queued });
    returned = process_yield-eq;
    scheduled = record {
      current = refl;
      running = ground arith;
      linked =
          Linked-frame queued (dispatch x (record ps { table = queued })).table (queued x).next
            (q ++ c ∷ []) (λ y i. ground (arith, new_out)) appended.linked.1;
      ready =
          All-append _ q (c ∷ [])
            (All-mono _ _ q
              (λ y i e.
                ground (arith, state-queued y, state-readied y, e, is.distinct.0, is.distinct.1.0))
              is.ready.1)
            (ground (arith, state-queued c, state-readied c, is.distinct.0), tt);
      distinct = (new_out, Distinct-snoc q c is.distinct.1.1 (ground (arith, is.distinct.0)));
      inside = (is.inside.1.0, All-append _ q (c ∷ []) is.inside.1.1 (is.inside.0, tt));
    };
    ticked = ground (arith, ticks-queued x);
    elsewhere = λ p out. ground (arith, queued-elsewhere p out);
  }
    where
      new_out : has x (q ++ c ∷ []) ≡ false
      new_out = ground (arith, has-append x q (c ∷ []), is.distinct.0, is.distinct.1.0)
