-- ===== src/Process/NewProcess.antt =====
-- process_create in both versions of process.c, which print on different screens.
use zer0s.Prelude.{
  ℕ, zero, suc, ◌+◌, ◌≡◌, ◌⊎◌, refl, ap, ◌∙◌, Bool-cases, inl, inr, Option, Option-cases, none,
  some, List, ◌==◌, if◌then◌else◌, store, u64,
}
use zer0s.Console.{Console}
use zer0s.Heap.{
  Heap, kmalloc, find_block, heap_fuel, heap_init, align8, found, exhausted, out_of_fuel, Walk,
}
use zer0s.Process.{
  Ptr, Process, Processes, is_free, find_free_slot, find_free_process, process_create,
  proc_stack_size, new_process, start_process,
}
use zer0s.Process.Later
use zer0s.Process.Agree.{ticked, on_ticks, store-ticked, IsSameButTicks}
use zer0s.Process.Calls.{without_ptr, AgreeAll}

-- The heap and the pointer are the same on every screen.
abbrev SameHeap : Option (ℕ × Heap × Console) → Option (ℕ × Heap × Console) → Type 0
SameHeap none none = Unit
SameHeap none (some y) = ⊥
SameHeap (some x) none = ⊥
SameHeap (some (p, h, t)) (some (q, g, u)) = (p ≡ q) × (h ≡ g)

Walk-cases : (w : Walk) → ((c : ℕ) × (w ≡ found c)) ⊎ ((w ≡ exhausted) ⊎ (w ≡ out_of_fuel))
Walk-cases (found c) = inl (c, refl)
Walk-cases exhausted = inr (inl refl)
Walk-cases out_of_fuel = inr (inr refl)

kmalloc-SameHeap :
    (size : ℕ) (h : Heap) (t u : Console) → SameHeap (kmalloc size h t) (kmalloc size h u)
unfolding kmalloc
kmalloc-SameHeap size h t u = elim (Bool-cases (size == 0)) [
  | inl no_size ↦ rw no_size (refl, refl)
  | inr sized ↦
      rw sized
        (elim (Walk-cases
          (find_block heap_fuel (heap_init h).head (align8 size) (heap_init h).blocks)) [
            | inl (c, e) ↦ rw e (refl, refl)
            | inr (inl e) ↦ rw e (refl, refl)
            | inr (inr e) ↦ rw e tt
          ])
]

record Allocated (r r' : Option (ℕ × Heap × Console)) : Type 0 where
  ptr : ℕ
  heap : Heap
  screen : Console
  screen' : Console
  first : r ≡ some (ptr, heap, screen)
  second : r' ≡ some (ptr, heap, screen')

SameHeap-cases :
    (r r' : Option (ℕ × Heap × Console))
    → SameHeap r r'
    → ((r ≡ none) × (r' ≡ none)) ⊎ Allocated r r'
SameHeap-cases none none a = inl (refl, refl)
SameHeap-cases none (some y) a = elim a [ ]
SameHeap-cases (some x) none a = elim a [ ]
SameHeap-cases (some (p, h, t)) (some (q, g, u)) a = inr (record {
  ptr = q;
  heap = g;
  screen = t;
  screen' = u;
  first = ap (λ (p : ℕ). some (p, h, t)) a.0 ∙ ap (λ (h : Heap). some (q, h, t)) a.1;
  second = refl;
})

-- A new process in slot `s`, before and behind its start.
filled-IsSameButTicks :
    (k : ℕ → ℕ) (s : ℕ) (p : Process) (queue : Ptr) (pid : ℕ) (qs : Processes)
    → IsSameButTicks
        (record qs { table = store (ticked k qs.table) s p; ready_queue = queue; next_pid = pid })
        (record qs { table = store qs.table s p; ready_queue = queue; next_pid = pid })
filled-IsSameButTicks k s p queue pid qs = record {
  ticks = store k s p.total_ticks;
  same =
      ap (λ (m : ℕ → Process). record qs { table = m; ready_queue = queue; next_pid = pid })
        (store-ticked k s p.total_ticks p qs.table);
}

find_free_slot-ticked :
    (left i : ℕ) (k : ℕ → ℕ) (m : ℕ → Process)
    → find_free_slot left i (ticked k m) ≡ find_free_slot left i m
unfolding find_free_slot
find_free_slot-ticked zero i k m = refl
find_free_slot-ticked (suc left) i k m =
    ap (λ (rest : Ptr). if is_free (m i) then some i else rest)
      (find_free_slot-ticked left (i + 1) k m)

pub create-AgreeAll :
    (name : List ℕ) (entry priority flags : ℕ) (k : ℕ → ℕ) (qs : Processes) (h : Heap)
    (t u : Console)
    → AgreeAll
        (without_ptr (process_create name entry priority flags (on_ticks k qs) h t))
        (without_ptr (Later.process_create name entry priority flags qs h u))
unfolding process_create Later.process_create find_free_process
create-AgreeAll name entry priority flags k qs h t u =
    elim (Option-cases (find_free_slot 256 0 qs.table)) [
      | inl e ↦
          rw
            (
              process_create,
              Later.process_create,
              find_free_process,
              find_free_slot-ticked 256 0 k qs.table,
              e,
            )
            (record { processes = record { ticks = k; same = refl }; heap = refl })
      | inr (s, e) ↦
          rw
            (
              process_create,
              Later.process_create,
              find_free_process,
              find_free_slot-ticked 256 0 k qs.table,
              e,
            )
            (elim (SameHeap-cases _ _ (kmalloc-SameHeap proc_stack_size h t u)) [
              | inl (a, b) ↦ rw (a, b) tt
              | inr a ↦
                  rw (a.first, a.second)
                    (elim (Bool-cases (a.ptr == 0)) [
                      | inl null ↦ rw null (record {
                        processes =
                            filled-IsSameButTicks k s (new_process name priority flags qs.next_pid)
                              qs.ready_queue (u64 (qs.next_pid + 1)) qs;
                        heap = refl;
                      })
                      | inr there ↦ rw there (record {
                        processes =
                            filled-IsSameButTicks k s
                              (start_process (new_process name priority flags qs.next_pid) a.ptr
                                entry qs.ready_queue)
                              (some s) (u64 (qs.next_pid + 1)) qs;
                        heap = refl;
                      })
                    ])
            ])
    ]
