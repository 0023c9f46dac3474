-- ===== src/Process/Later.antt =====
-- The functions that kernel/core/process.c defines a second time, from line 210 on. The loop over
-- the slots, the copy of the name, the walk to the end of the queue and the texts of a line are
-- those of the first definitions.
use zer0s.Prelude.{
  ℕ, ◌+◌, List, [], ◌∷◌, Option, none, some, ◌==◌, if◌then◌else◌, store, for_rounds, u64, bytes,
}
use zer0s.Console.{Console, text, number, print}
use zer0s.Heap.{Heap, kmalloc, kfree}
use zer0s.Process.{
  Ptr, Processes, cleared, max_procs, proc_stack_size, proc_running, proc_sleeping, proc_zombie,
  proc_ready, proc_dead, find_free_process, new_process, start_process, set_state, set_next,
  requeue, find_pid, c_string, widen_int,
}
use zer0s.Process.Report.{list_line}

unfoldable pub process_init : Processes → Console → Processes × Console
process_init ps t = (
  record ps { table = for_rounds (λ i m. store m i cleared) max_procs 0 ps.table },
  print
      (text (bytes "\n[Process] Initializing process manager...\n")
        ∷ text (bytes "[Process] Process manager ready\n")
        ∷ [])
      t,
)

-- The process is first, `none` for `NULL`. The outer `none` is a `kmalloc` that does not end.
unfoldable pub process_create :
    List ℕ → ℕ → ℕ → ℕ → Processes → Heap → Console → Option (Ptr × Processes × Heap × Console)
process_create name entry priority flags ps h t = elim (find_free_process ps) [
  | none ↦ some (none, ps, h, t)
  | some s ↦
      let fresh = new_process name priority flags ps.next_pid in
      let pid' = u64 (ps.next_pid + 1) in
      elim (kmalloc proc_stack_size h t) [
        | none ↦ none
        | some (stack, h', t') ↦
            if stack == 0
            then some (none, record ps { table = store ps.table s fresh; next_pid = pid' }, h', t')
            else some (
              some s,
              record ps {
                table = store ps.table s (start_process fresh stack entry ps.ready_queue);
                ready_queue = some s;
                next_pid = pid';
              },
              h',
              print
                  (text (bytes "[Process] Created: ")
                    ∷ text name
                    ∷ text (bytes " (PID: ")
                    ∷ number fresh.pid
                    ∷ text (bytes ")\n")
                    ∷ [])
                  t',
            )
      ]
]

unfoldable pub process_destroy : Ptr → Processes → Heap → Processes × Heap
process_destroy none ps h = (ps, h)
process_destroy (some s) ps h = (
  record ps { table = set_state s proc_dead ps.table },
  if (ps.table s).kernel_stack == 0 then h else kfree (ps.table s).kernel_stack h,
)

-- The end of `process_yield`, which does not count ticks.
unfoldable pub dispatch : ℕ → Processes → Processes
dispatch s ps = record ps {
  current_process = some s;
  ready_queue = (ps.table s).next;
  table = store ps.table s (record (ps.table s) { next = none; state = proc_running });
}

unfoldable pub yield_from : Ptr → Processes → Option Processes
yield_from none ps = some ps
yield_from (some first) ps = elim (requeue first ps.current_process ps.table) [
  | none ↦ none
  | some m ↦ some (dispatch first (record ps { table = m }))
]

unfoldable pub process_yield : Processes → Option Processes
unfolding yield_from
process_yield ps = yield_from ps.ready_queue ps

unfoldable pub process_exit : Processes → Option Processes
unfolding process_yield
process_exit ps = elim ps.current_process [
  | none ↦ some ps
  | some c ↦ process_yield (record ps { table = set_state c proc_zombie ps.table })
]

unfoldable pub process_sleep : ℕ → Processes → Option Processes
unfolding process_yield
process_sleep ticks ps = elim ps.current_process [
  | none ↦ some ps
  | some c ↦ process_yield (record ps {
    table = store ps.table c (record (ps.table c) { sleep_until = ticks; state = proc_sleeping });
  })
]

unfoldable pub process_wakeup : Ptr → Processes → Processes
process_wakeup none ps = ps
process_wakeup (some s) ps =
    if (ps.table s).state == proc_sleeping
    then record ps {
      table = set_next s ps.ready_queue (set_state s proc_ready ps.table);
      ready_queue = some s;
    }
    else ps

unfoldable pub process_get_current : Processes → Ptr
process_get_current ps = ps.current_process

unfoldable pub process_get_by_pid : ℕ → Processes → Ptr
process_get_by_pid pid ps = find_pid max_procs 0 pid ps.table

unfoldable pub process_list : Processes → Console → Console
process_list ps t = print (text (bytes "===================\n") ∷ []) (
    for_rounds (λ i u. list_line (ps.table i) u) max_procs 0
      (print (text (bytes "\n=== Process List ===\n") ∷ []) t))

unfoldable pub process_info : Ptr → Processes → Console → Console
process_info none ps t = t
process_info (some s) ps t =
    let proc = ps.table s in
    print
      (text (bytes "\nPID: ")
        ∷ number proc.pid
        ∷ text (bytes "\nName: ")
        ∷ text (c_string proc.name)
        ∷ text (bytes "\nState: ")
        ∷ number proc.state
        ∷ text (bytes "\nPriority: ")
        ∷ number (widen_int proc.priority)
        ∷ text (bytes "\n")
        ∷ [])
      t

unfoldable pub process_stats : Ptr → Processes → Console → Console
process_stats none ps t = t
process_stats (some s) ps t =
    print
      (text (bytes "\n=== Process Stats ===\n")
        ∷ text (bytes "Total ticks: ")
        ∷ number (ps.table s).total_ticks
        ∷ text (bytes "\n")
        ∷ [])
      t
