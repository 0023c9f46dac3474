-- ===== src/Process/Tests.antt =====
-- The scheduler with three processes.
use zer0s.Prelude.{ℕ, ◌≡◌, ◌<◌, refl, List, Option, none, some, [], ◌∷◌, arith, bytes, store}
use zer0s.Console.{Console}
use zer0s.Heap.{Heap, kmalloc, find_block, take_block, heap_init, align8}
use zer0s.Process.{
  Processes, Ptr, cleared, proc_ready, proc_running, find_free_slot, find_free_process,
  process_create, append_last, process_yield, process_destroy, set_state, process_wakeup,
}
use zer0s.Process.Calls.{
  Call, create, destroy, yield, sleep, wakeup, list, init, call_first, call_later, run,
}
use zer0s.Process.Versions.{AreAlike, run-AreAlike}
use zer0s.Process.Yield.{IsScheduled, Rotated, process_yield_rotates}
use zer0s.Process.Sleep.{process_sleep-IsSwitched, process_wakeup-process_sleep}
use zer0s.Process.Lost.{IsFull, failures, IsExhausted, process_create_loses_slots}
use zer0s.Process.Outcomes.{process_create-IsScheduled, process_create_self_loop}

abbrev screen : Console
screen = record { vga = λ i. 0; row = 0; col = 0 }

abbrev memory : Heap
memory = record { head = 0; blocks = λ a. record { size = 0; used = 0; next = 0 } }

-- Slot 0 runs; slots 1 and 2 are ready, in this order.
abbrev three : Processes
three = record {
  table =
      store
        (store (store (λ i. cleared) 0 (record cleared { pid = 1; state = proc_running })) 1
          (record cleared { pid = 2; state = proc_ready; next = some 2 }))
        2 (record cleared { pid = 3; state = proc_ready });
  current_process = some 0;
  ready_queue = some 1;
  next_pid = 4;
}

three-IsScheduled : IsScheduled three 0 (1 ∷ 2 ∷ [])
three-IsScheduled = record {
  current = refl;
  running = refl;
  linked = (refl, (refl, refl));
  ready = (refl, (refl, tt));
  distinct = (refl, (refl, (refl, tt)));
  inside = (omega arith, (omega arith, (omega arith, tt)));
}

process_yield_rotates_example : Rotated three 0 1 (2 ∷ []) (process_yield three)
process_yield_rotates_example = process_yield_rotates three-IsScheduled

abbrev outcome : Option (Ptr × Processes × Heap × Console) → Ptr × Processes × Heap × Console
outcome none = (none, three, memory, screen)
outcome (some r) = r

abbrev fourth : Ptr × Processes × Heap × Console
fourth = outcome (process_create (bytes "shell") 0x100000 128 1 three memory screen)

fourth_created :
    process_create (bytes "shell") 0x100000 128 1 three memory screen
    ≡ some (some 3, fourth.1, fourth.2, fourth.3)
unfolding process_create find_free_process find_free_slot kmalloc find_block take_block heap_init
    align8
fourth_created = refl

process_create-IsScheduled_example : IsScheduled fourth.1 0 (3 ∷ 1 ∷ 2 ∷ [])
process_create-IsScheduled_example =
    process_create-IsScheduled (bytes "shell") 0x100000 128 1 three memory screen fourth_created 0
      (1 ∷ 2 ∷ []) three-IsScheduled

three_pids : (i : ℕ) → (three.table i).pid < 4
three_pids i = ground arith

-- Slot 1, the head of the queue, is destroyed.
abbrev after_destroy : Processes
after_destroy = (process_destroy (some 1) three memory screen).0

abbrev again : Ptr × Processes × Heap × Console
again = outcome (process_create (bytes "new") 0x100000 128 1 after_destroy memory screen)

again_created :
    process_create (bytes "new") 0x100000 128 1 after_destroy memory screen
    ≡ some (some 1, again.1, again.2, again.3)
unfolding process_create find_free_process find_free_slot kmalloc find_block take_block heap_init
    align8 process_destroy set_state
again_created = refl

process_create_self_loop_example :
    ((again.1.table 1).next ≡ some 1) × ((fuel c : ℕ) → append_last fuel 1 c again.1.table ≡ none)
unfolding process_destroy
process_create_self_loop_example =
    process_create_self_loop (bytes "new") 0x100000 128 1 after_destroy memory screen again_created
      refl

-- A heap whose one block is in use.
abbrev full : Heap
full = record { head = 0x2000000; blocks = λ a. record { size = 0x800000; used = 1; next = 0 } }

full-IsFull : IsFull (heap_init full)
unfolding heap_init zer0s.Heap.Chunks.spans
full-IsFull = record {
  live = (0x2000018, 0x800000) ∷ [];
  state = record {
    chunks = (0x800000, 1) ∷ [];
    head = refl;
    chain = (refl, refl, refl, (refl, refl));
    aligned = (refl, tt);
    used = refl;
  };
  full = (refl, tt);
}

process_create_loses_slots_example :
    IsExhausted 0 (1 ∷ 2 ∷ []) (failures 256 (bytes "late") 0x100000 128 1 three full screen)
process_create_loses_slots_example =
    process_create_loses_slots (bytes "late") 0x100000 128 1 0 (1 ∷ 2 ∷ []) three full screen
      three-IsScheduled full-IsFull

abbrev slept : Processes
slept = (process_sleep-IsSwitched 10 three-IsScheduled).after

process_wakeup-process_sleep_example : IsScheduled (process_wakeup (some 0) slept) 1 (0 ∷ 2 ∷ [])
process_wakeup-process_sleep_example =
    process_wakeup-process_sleep 10 three-IsScheduled
      (process_sleep-IsSwitched 10 three-IsScheduled).returned

-- A new process is created and runs, sleeps, and is woken up; the one in slot 1 is destroyed; then
-- the manager starts over.
abbrev calls : List Call
calls =
    create (bytes "shell") 0x100000 128 1
    ∷ yield
    ∷ sleep 9
    ∷ wakeup (some 3)
    ∷ destroy (some 1)
    ∷ list
    ∷ init
    ∷ []

run-AreAlike_example :
    AreAlike
      (run call_first calls (three, memory, screen))
      (run call_later calls (three, memory, screen))
run-AreAlike_example =
    run-AreAlike calls (three, memory, screen) (three, memory, screen)
      (record {
        processes = record { ticks = λ i. (three.table i).total_ticks; same = refl };
        heap = refl;
      })
