-- ===== src/Scheduler/Rotation.antt =====
-- The ready list of the scheduler as a list of slots.
use zer0s.Prelude.{
  ℕ, zero, suc, ◌<◌, ◌≡◌, ◌≢◌, refl, ◌∙◌, arith, false, inl, inr, Bool-cases, Option, none, some,
  List, [], ◌∷◌, ◌++◌, length, ◌==◌, if◌then◌else◌,
}
use zer0s.Process.{Process, set_next, append_last}
use zer0s.Process.Queue.{Linked, Distinct, has, append_last-Appended, Linked-frame}
use zer0s.Scheduler.{
  Scheduler, scheduler_remove, scheduler_yield, unlink, rotate, Cell, read_cell, list_head, next_of,
}

-- The ready list leads through the slots `q`, without repetition and all within the table.
pub record IsReadyList (s : Scheduler) (q : List ℕ) : Type 0 where
  pub linked : Linked s.table s.ready_list q
  pub distinct : Distinct q
  pub fits : length q < 257

-- On a ready list of two processes or more `scheduler_yield` ends and moves the first to the end.
pub scheduler_yield_rotates :
    (s : Scheduler) (x y : ℕ) (q : List ℕ)
    → IsReadyList s (x ∷ y ∷ q)
    → (after : Scheduler) × (scheduler_yield s ≡ some after)
      × Linked after.table after.ready_list (y ∷ q ++ x ∷ [])
unfolding scheduler_yield rotate append_last set_next
scheduler_yield_rotates s x y q is =
    let r =
      append_last-Appended 257 y x q s.table (omega (arith, is.fits)) (refl, is.linked.1.1)
        is.distinct.1 is.distinct.0 in
    (
      record s { table = set_next x none r.after; ready_list = some y },
      rw (is.linked.0, is.linked.1.0, r.returned) refl,
      r.linked,
    )

-- The list without a slot.
unfoldable pub without : ℕ → List ℕ → List ℕ
without a [] = []
without a (x ∷ xs) = let rest = without a xs in if x == a then xs else x ∷ rest

unlink-end :
    (fuel : ℕ) (cell : Cell) (proc : ℕ) (s : Scheduler)
    → read_cell cell s ≡ none
    → unlink (suc fuel) cell proc s ≡ some s
unfolding unlink
unlink-end fuel cell proc s e = rw (unlink, e) refl

unlink-next :
    (fuel : ℕ) (cell : Cell) (proc x : ℕ) (s : Scheduler)
    → read_cell cell s ≡ some x
    → (x == proc) ≡ false
    → unlink (suc fuel) cell proc s ≡ unlink fuel (next_of x) proc s
unfolding unlink
unlink-next fuel cell proc x s e other = rw (unlink, e, other) refl

-- What the walk from the `next` of `y` along `xs` leaves.
record Unlinked (s : Scheduler) (y proc : ℕ) (xs : List ℕ) (r : Option Scheduler) : Type 0 where
  pub after : Scheduler
  pub returned : r ≡ some after
  pub head : after.ready_list ≡ s.ready_list
  pub linked : Linked after.table (after.table y).next (without proc xs)
  pub elsewhere : (q : ℕ) → q ≢ y → has q xs ≡ false → after.table q ≡ s.table q

unlink-Unlinked :
    (fuel y proc : ℕ) (xs : List ℕ) (s : Scheduler)
    → length xs < fuel
    → Linked s.table (s.table y).next xs
    → Distinct (y ∷ xs)
    → Unlinked s y proc xs (unlink fuel (next_of y) proc s)
unfolding unlink without set_next
unlink-Unlinked zero y proc xs s lt l d = absurd (omega arith)
unlink-Unlinked (suc fuel) y proc [] s lt l d = record {
  after = s;
  returned = rw (unlink, l) refl;
  head = refl;
  linked = l;
  elsewhere = λ q ne out. refl;
}
unlink-Unlinked (suc fuel) y proc (x ∷ xs) s lt l d = elim (Bool-cases (x == proc)) [
  | inl found ↦
      let same : x ≡ proc = ground arith in
      let table' : ℕ → Process = set_next proc none (set_next y (s.table proc).next s.table) in
      let next' : (table' y).next ≡ (s.table proc).next = ground (arith, d.0) in
      record {
        after = record s { table = table' };
        returned = rw (unlink, l.0, found) refl;
        head = refl;
        linked =
            rw (found, next')
              (Linked-frame s.table table' (s.table proc).next xs
                (λ z i. ground (arith, d.0, d.1.0)) (rw (← same) l.1));
        elsewhere = λ q ne out. ground arith;
      }
  | inr other ↦
      let rest = unlink-Unlinked fuel x proc xs s (omega arith) l.1 d.1 in
      let kept = rest.elsewhere y (ground (arith, d.0)) (ground (arith, d.0)) in
      record {
        after = rest.after;
        returned = rw (unlink, l.0, other) rest.returned;
        head = rest.head;
        linked = rw other (rw kept l.0, rest.linked);
        elsewhere = λ q ne out. rest.elsewhere q (ground arith) (ground arith);
      }
]

-- `scheduler_remove` on a ready list ends and takes the process out of it, the others in their
-- order; of a process that is not in the list nothing changes there.
pub scheduler_remove-without :
    (s : Scheduler) (proc : ℕ) (q : List ℕ)
    → IsReadyList s q
    → (after : Scheduler) × (scheduler_remove (some proc) s ≡ some after)
      × Linked after.table after.ready_list (without proc q)
unfolding scheduler_remove without set_next
scheduler_remove-without s proc [] is = (s, unlink-end 256 list_head proc s is.linked, is.linked)
scheduler_remove-without s proc (x ∷ q) is = elim (Bool-cases (x == proc)) [
  | inl found ↦
      let same : x ≡ proc = ground arith in
      let table' : ℕ → Process = set_next proc none s.table in
      (
        record s { table = table'; ready_list = (s.table proc).next },
        rw (unlink, is.linked.0, found) refl,
        rw found (
            Linked-frame s.table table' (s.table proc).next q (λ z i. ground (arith, is.distinct.0))
              (rw (← same) is.linked.1)),
      )
  | inr other ↦
      let rest = unlink-Unlinked 256 x proc q s (omega (arith, is.fits)) is.linked.1 is.distinct in
      (
        rest.after,
        unlink-next 256 list_head proc x s is.linked.0 other ∙ rest.returned,
        rw other (rest.head ∙ is.linked.0, rest.linked),
      )
]
