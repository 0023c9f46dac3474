-- ===== src/Process/Create.antt =====
-- `process_create`: where the new process goes, how it is found, and what a failure leaves.
use zer0s.Prelude.{
  ℕ, zero, suc, ◌+◌, ◌≤◌, ◌<◌, ◌≡◌, inl, inr, Bool-cases, refl, true, none, some, false, List, [],
  ◌∷◌, arith, store, u64,
}
use zer0s.Console.{Console}
use zer0s.Heap.{Heap, kmalloc}
use zer0s.Process.{
  Process, Processes, is_free, find_free_slot, find_free_process, new_process, start_process,
  process_create, proc_stack_size, proc_ready,
}
use zer0s.Process.Queue.{has, All}

-- The lowest slot from `i` to `n` that is free.
pub record IsFirstSlot (m : ℕ → Process) (i n s : ℕ) : Type 0 where
  pub from : i ≤ s
  pub below : s < n
  pub free : is_free (m s) ≡ true

find_free_slot_lem :
    (left i n s : ℕ) (m : ℕ → Process)
    → i + left ≡ n
    → find_free_slot left i m ≡ some s
    → IsFirstSlot m i n s
unfolding find_free_slot
find_free_slot_lem zero i n s m e f = cc
find_free_slot_lem (suc left) i n s m e f = elim (Bool-cases (is_free (m i))) [
  | inl free ↦
      let here : s ≡ i = ground arith in
      rw here (record { from = omega arith; below = omega arith; free = free })
  | inr taken ↦
      let rest = find_free_slot_lem left (i + 1) n s m (omega arith) (ground arith) in
      record { from = omega (arith, rest.from); below = rest.below; free = rest.free }
]

-- A free slot is not in the ready queue.
pub not_queued :
    (s : ℕ) (m : ℕ → Process) (q : List ℕ)
    → is_free (m s) ≡ true
    → All (λ x. (m x).state ≡ proc_ready) q
    → has s q ≡ false
not_queued s m [] free ready = refl
not_queued s m (x ∷ q) free ready = ground (arith, not_queued s m q free ready.1, free, ready.0)

-- The stack that `kmalloc` gives, or 0.
abbrev pub stack_from : Heap → Console → ℕ
stack_from h t = elim (kmalloc proc_stack_size h t) [ none ↦ 0 | some (stack, _, _) ↦ stack ]

-- `process_create` returned the process in slot `s`.
pub record Created (name : List ℕ) (entry priority flags : ℕ) (ps : Processes) (h : Heap)
    (t : Console) (s : ℕ) (ps' : Processes) : Type 0 where
  pub slot : find_free_process ps ≡ some s
  pub table :
      ps'.table
      ≡ store ps.table s (
          start_process
            (new_process name priority flags ps.next_pid)
            (stack_from h t)
            entry
            ps.ready_queue)
  pub queue : ps'.ready_queue ≡ some s
  pub current : ps'.current_process ≡ ps.current_process
  pub pids : ps'.next_pid ≡ u64 (ps.next_pid + 1)

pub process_create-Created :
    (name : List ℕ) (entry priority flags : ℕ) (ps : Processes) (h : Heap) (t : Console) {s : ℕ}
    {ps' : Processes} {h' : Heap} {t' : Console}
    → process_create name entry priority flags ps h t ≡ some (some s, ps', h', t')
    → Created name entry priority flags ps h t s ps'
unfolding process_create
process_create-Created name entry priority flags ps h t out = record {
  slot = ground arith;
  table = ground arith;
  queue = ground arith;
  current = ground arith;
  pids = ground arith;
}

pub find_free_process-IsFirstSlot :
    (ps : Processes) (s : ℕ) → find_free_process ps ≡ some s → IsFirstSlot ps.table 0 256 s
unfolding find_free_process
find_free_process-IsFirstSlot ps s e = find_free_slot_lem 256 0 256 s ps.table refl e
