-- ===== src/Process/Outcomes.antt =====
-- What `process_create` means for the scheduler, for lookups, and where it goes wrong.
use zer0s.Prelude.{
  ℕ, zero, suc, ◌+◌, ◌≤◌, ◌<◌, ◌≡◌, ◌≢◌, ◌∙◌, inl, inr, Bool-cases, refl, none, some, List, ◌∷◌,
  arith, ◌==◌, if◌then◌else◌,
}
use zer0s.Console.{Console}
use zer0s.Heap.{Heap}
use zer0s.Process.{
  Process, Processes, new_process, start_process, process_create, find_pid, process_get_by_pid,
  append_last, proc_ready,
}
use zer0s.Process.Queue.{All-mono, Linked-frame}
use zer0s.Process.Yield.{IsScheduled}
use zer0s.Process.Create.{
  not_queued, IsFirstSlot, stack_from, Created, process_create-Created,
  find_free_process-IsFirstSlot,
}

-- A walk that starts at a process that is its own successor does not end.
append_last-loop :
    (fuel s c : ℕ) (m : ℕ → Process) → (m s).next ≡ some s → append_last fuel s c m ≡ none
unfolding append_last
append_last-loop zero s c m e = refl
append_last-loop (suc fuel) s c m e = rw (e, append_last) (append_last-loop fuel s c m e)

-- The search for an identifier stops at the one slot that has it.
find_pid-only :
    (left i s pid : ℕ) (m : ℕ → Process)
    → i ≤ s
    → s < i + left
    → (m s).pid ≡ pid
    → (m s).state ≡ proc_ready
    → ((j : ℕ) → j ≢ s → (m j).pid < pid)
    → find_pid left i pid m ≡ some s
unfolding find_pid
find_pid-only zero i s pid m le lt here live others = absurd (omega arith)
find_pid-only (suc left) i s pid m le lt here live others = elim (Bool-cases (i == s)) [
  | inl e ↦ let at : i ≡ s = ground arith in rw at (ground (arith, here, live))
  | inr e ↦
      let ne : i ≢ s = ground arith in
      ground (
        arith,
        others i ne,
        find_pid-only left (i + 1) s pid m (omega arith) (omega arith) here live others,
      )
]

module _ (name : List ℕ) (entry priority flags : ℕ) (ps : Processes) (h : Heap) (t : Console)
    {s : ℕ} {ps' : Processes} {h' : Heap} {t' : Console}
    (out : process_create name entry priority flags ps h t ≡ some (some s, ps', h', t')) where
  abbrev done : Created name entry priority flags ps h t s ps'
  done = process_create-Created name entry priority flags ps h t out

  abbrev slot : IsFirstSlot ps.table 0 256 s
  slot = find_free_process-IsFirstSlot ps s done.slot

  -- The table at a slot afterwards.
  table-cell :
      (i : ℕ)
      → ps'.table i ≡ (
          if s == i
          then start_process
              (new_process name priority flags ps.next_pid)
              (stack_from h t)
              entry
              ps.ready_queue
          else ps.table i)
  table-cell i = rw done.table

  next_new : (ps'.table s).next ≡ ps.ready_queue
  unfolding start_process
  next_new = ground (arith, table-cell s)

  -- When `process_create` on a well-formed scheduler returns a process, the scheduler is well-
  -- formed and the new process stands at the head of the ready queue, before those that were there.
  pub process_create-IsScheduled :
      (c : ℕ) (q : List ℕ) → IsScheduled ps c q → IsScheduled ps' c (s ∷ q)
  unfolding start_process new_process
  process_create-IsScheduled c q is =
      let out_of_queue = not_queued s ps.table q slot.free is.ready in
      let apart : c ≢ s = λ e. ground (arith, is.running, slot.free) in
      record {
        current = ground (arith, done.current, is.current);
        running = ground (arith, table-cell c, apart, is.running);
        linked = (
          done.queue,
          rw next_new (
              Linked-frame ps.table ps'.table ps.ready_queue q
                (λ x i. ground (arith, table-cell x, out_of_queue)) is.linked),
        );
        ready = (
          ground (arith, table-cell s),
          All-mono (λ x. (ps.table x).state ≡ proc_ready) (λ x. (ps'.table x).state ≡ proc_ready) q
              (λ x i e. ground (arith, table-cell x)) is.ready,
        );
        distinct = (ground (arith, apart, is.distinct.0), (out_of_queue, is.distinct.1));
        inside = (is.inside.0, (slot.below, is.inside.1));
      }

  -- The new process has the next identifier, and as long as that was above all those in the table
  -- a lookup finds it.
  pub process_get_by_pid-process_create :
      ((i : ℕ) → (ps.table i).pid < ps.next_pid) → process_get_by_pid ps.next_pid ps' ≡ some s
  unfolding process_get_by_pid start_process new_process
  process_get_by_pid-process_create above =
      find_pid-only 256 0 s ps.next_pid ps'.table (omega arith) (omega (arith, slot.below))
        (ground (arith, table-cell s)) (ground (arith, table-cell s))
        (λ j ne. ground (arith, table-cell j, above j))

  -- When `process_create` returns a process and its slot is still the head of the ready queue, as
  -- after the destruction of a ready process, the new process is its own successor, and no walk
  -- along the queue ends.
  pub process_create_self_loop :
      ps.ready_queue ≡ some s
      → ((ps'.table s).next ≡ some s) × ((fuel c : ℕ) → append_last fuel s c ps'.table ≡ none)
  process_create_self_loop stale =
      let loop : (ps'.table s).next ≡ some s = next_new ∙ stale in
      (loop, λ fuel c. append_last-loop fuel s c ps'.table loop)
