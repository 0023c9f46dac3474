-- ===== src/Process/Report.antt =====
-- What process_list, process_info and process_stats of kernel/core/process.c print.
use zer0s.Prelude.{ℕ, List, [], ◌∷◌, ◌==◌, if◌then◌else◌, none, some, for_rounds, bytes}
use zer0s.Console.{Console, text, number, print}
use zer0s.Process.{
  max_procs, proc_ready, proc_running, proc_sleeping, proc_zombie, Ptr, Process, Processes, is_free,
  c_string, widen_int,
}

unfoldable pub state_name : ℕ → List ℕ
state_name s =
    if s == proc_ready
    then bytes "READY"
    else if s == proc_running
    then bytes "RUNNING"
    else if s == proc_sleeping
    then bytes "SLEEPING"
    else if s == proc_zombie
    then bytes "ZOMBIE"
    else bytes "UNKNOWN"

unfoldable pub list_line : Process → Console → Console
unfolding state_name
list_line p t =
    if is_free p
    then t
    else print
        (number p.pid
          ∷ text (bytes " │ ")
          ∷ text (c_string p.name)
          ∷ text (bytes " │ ")
          ∷ text (state_name p.state)
          ∷ text (bytes "\n")
          ∷ [])
        t

unfoldable pub process_list : Processes → Console → Console
unfolding list_line
process_list ps t = print (text (bytes "===================\n") ∷ []) (
    for_rounds (λ i u. list_line (ps.table i) u) max_procs 0
      (print (text (bytes "\n=== Process List ===\n") ∷ []) t))

unfoldable pub process_info : Ptr → Processes → Console → Console
process_info none ps t = t
process_info (some s) ps t =
    let proc = ps.table s in
    print
      (text (bytes "\nPID: ")
        ∷ number proc.pid
        ∷ text (bytes "\nName: ")
        ∷ text (c_string proc.name)
        ∷ text (bytes "\nState: ")
        ∷ number proc.state
        ∷ text (bytes "\nPriority: ")
        ∷ number (widen_int proc.priority)
        ∷ text (bytes "\n")
        ∷ [])
      t

unfoldable pub process_stats : Ptr → Processes → Console → Console
process_stats none ps t = t
process_stats (some s) ps t =
    print
      (text (bytes "\n=== Process Stats ===\n")
        ∷ text (bytes "Total ticks: ")
        ∷ number (ps.table s).total_ticks
        ∷ text (bytes "\n")
        ∷ [])
      t
