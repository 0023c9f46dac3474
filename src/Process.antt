-- ===== src/Process.antt =====
-- The process table and ready queue of kernel/core/process.c (lines 1 to 207; Later has those that
-- the rest of the file defines once more). A pointer to a process is its index in the table.
pub mod Queue
pub mod Yield
pub mod RoundRobin
pub mod Create
pub mod Outcomes
pub mod Search
pub mod Lost
pub mod Sleep
pub mod Report
pub mod Later
pub mod Agree
pub mod Observed
pub mod Calls
pub mod NewProcess
pub mod Versions
mod Tests
use zer0s.Prelude.{
  ℕ, zero, suc, ◌+◌, ◌-◌, ◌^◌, Bool, true, false, ◌&&◌, ◌||◌, not, Option, none, some, List, [],
  ◌∷◌, ltb, ◌==◌, if◌then◌else◌, set, replicate, store, for_rounds, u32, u64, bytes,
}
use zer0s.Console.{Console, Item, text, number, print}
use zer0s.Heap.{Heap, kmalloc, kfree}

abbrev pub max_procs : ℕ
max_procs = 256

abbrev pub proc_stack_size : ℕ
proc_stack_size = 8192

abbrev pub proc_name_max : ℕ
proc_name_max = 64

abbrev pub proc_unused : ℕ
proc_unused = 0

abbrev pub proc_ready : ℕ
proc_ready = 2

abbrev pub proc_running : ℕ
proc_running = 3

abbrev pub proc_sleeping : ℕ
proc_sleeping = 5

abbrev pub proc_zombie : ℕ
proc_zombie = 7

abbrev pub proc_dead : ℕ
proc_dead = 8

-- A pointer into the table; `none` is `NULL`.
abbrev pub Ptr : Type 0
Ptr = Option ℕ

-- `process_t`, with the fields that the code reads or sets to other than 0.
pub record Process : Type 0 where
  pub pid : ℕ
  pub name : List ℕ
  pub state : ℕ
  pub flags : ℕ
  pub priority : ℕ
  pub rsp : ℕ
  pub rip : ℕ
  pub rflags : ℕ
  pub kernel_stack : ℕ
  pub kernel_stack_size : ℕ
  pub sleep_until : ℕ
  pub next : Ptr
  pub total_ticks : ℕ

-- The statics of the file.
pub record Processes : Type 0 where
  pub table : ℕ → Process
  pub current_process : Ptr
  pub ready_queue : Ptr
  pub next_pid : ℕ

-- What `my_memset` leaves.
abbrev pub cleared : Process
cleared = record {
  pid = 0;
  name = replicate proc_name_max 0;
  state = 0;
  flags = 0;
  priority = 0;
  rsp = 0;
  rip = 0;
  rflags = 0;
  kernel_stack = 0;
  kernel_stack_size = 0;
  sleep_until = 0;
  next = none;
  total_ticks = 0;
}

abbrev pub is_free : Process → Bool
is_free p = (p.state == proc_unused) || (p.state == proc_dead)

-- The loop of `find_free_process` from slot `i` on.
unfoldable pub find_free_slot : ℕ → ℕ → (ℕ → Process) → Ptr
find_free_slot zero i m = none
find_free_slot (suc left) i m =
    let rest = find_free_slot left (i + 1) m in if is_free (m i) then some i else rest

unfoldable pub find_free_process : Processes → Ptr
find_free_process ps = find_free_slot max_procs 0 ps.table

unfoldable pub process_init : Processes → Console → Processes × Console
process_init ps t = (
  record ps { table = for_rounds (λ i m. store m i cleared) max_procs 0 ps.table },
  print
      (text (bytes "\n[Process] Initializing process manager...\n")
        ∷ text (bytes "[Process] Process manager ready\n")
        ∷ [])
      t,
)

-- The copying loop and the NUL behind it; the list is the C string from index `i` on.
unfoldable pub copy_name : List ℕ → ℕ → List ℕ → List ℕ
copy_name [] i dst = set dst i 0
copy_name (c ∷ name) i dst =
    if ltb i (proc_name_max - 1) then copy_name name (i + 1) (set dst i c) else set dst i 0

-- The bytes of a buffer up to its NUL.
unfoldable pub c_string : List ℕ → List ℕ
c_string [] = []
c_string (c ∷ s) = if c == 0 then [] else c ∷ c_string s

-- The new process before its stack is allocated.
unfoldable pub new_process : List ℕ → ℕ → ℕ → ℕ → Process
new_process name priority flags pid = record cleared {
  pid = pid;
  state = proc_ready;
  priority = u32 priority;
  flags = flags;
  name = copy_name name 0 cleared.name;
  kernel_stack_size = proc_stack_size;
}

-- With its stack and context, at the head of the queue `next`.
unfoldable pub start_process : Process → ℕ → ℕ → Ptr → Process
start_process p stack entry next = record p {
  kernel_stack = stack;
  rsp = u64 (stack + proc_stack_size);
  rip = entry;
  rflags = 0x202;
  next = next;
}

-- The process is first, `none` for `NULL`. The outer `none` is a `kmalloc` that does not end.
unfoldable pub process_create :
    List ℕ → ℕ → ℕ → ℕ → Processes → Heap → Console → Option (Ptr × Processes × Heap × Console)
process_create name entry priority flags ps h t = elim (find_free_process ps) [
  | none ↦ some (none, ps, h, t)
  | some s ↦
      let fresh = new_process name priority flags ps.next_pid in
      let pid' = u64 (ps.next_pid + 1) in
      elim (kmalloc proc_stack_size h t) [
        | none ↦ none
        | some (stack, h', t') ↦
            if stack == 0
            then some (none, record ps { table = store ps.table s fresh; next_pid = pid' }, h', t')
            else some (
              some s,
              record ps {
                table = store ps.table s (start_process fresh stack entry ps.ready_queue);
                ready_queue = some s;
                next_pid = pid';
              },
              h',
              print
                  (text (bytes "[Process] Created: ")
                    ∷ text name
                    ∷ text (bytes " (PID: ")
                    ∷ number fresh.pid
                    ∷ text (bytes ")\n")
                    ∷ [])
                  t',
            )
      ]
]

unfoldable pub set_state : ℕ → ℕ → (ℕ → Process) → (ℕ → Process)
set_state s state m = store m s (record (m s) { state = state })

unfoldable pub process_destroy : Ptr → Processes → Heap → Console → Processes × Heap × Console
process_destroy none ps h t = (ps, h, t)
process_destroy (some s) ps h t =
    let proc = ps.table s in
    (
      record ps { table = set_state s proc_dead ps.table },
      if proc.kernel_stack == 0 then h else kfree proc.kernel_stack h,
      print
          (text (bytes "[Process] Destroying: ")
            ∷ text (c_string proc.name)
            ∷ text (bytes " (PID: ")
            ∷ number proc.pid
            ∷ text (bytes ")\n")
            ∷ [])
          t,
    )

unfoldable pub set_next : ℕ → Ptr → (ℕ → Process) → (ℕ → Process)
set_next s next m = store m s (record (m s) { next = next })

-- `while (last->next) last = last->next; last->next = proc;`. `none` is a walk that does not end
-- within the fuel.
unfoldable pub append_last : ℕ → ℕ → ℕ → (ℕ → Process) → Option (ℕ → Process)
append_last zero last proc m = none
append_last (suc fuel) last proc m = elim ((m last).next) [
  | none ↦ some (set_next last (some proc) m)
  | some next ↦ append_last fuel next proc m
]

-- One round more than there are slots.
abbrev pub walk_fuel : ℕ
walk_fuel = 257

-- The part of `process_yield` under its second test.
unfoldable pub requeue : ℕ → Ptr → (ℕ → Process) → Option (ℕ → Process)
requeue first none m = some m
requeue first (some c) m =
    if (m c).state == proc_running
    then elim (append_last walk_fuel first c (set_state c proc_ready m)) [
      | none ↦ none
      | some m' ↦ some (set_next c none m')
    ]
    else some m

-- The end of `process_yield`: the first of the queue runs.
unfoldable pub dispatch : ℕ → Processes → Processes
dispatch s ps =
    let proc = ps.table s in
    record ps {
      current_process = some s;
      ready_queue = proc.next;
      table = store ps.table s (record proc {
        next = none;
        state = proc_running;
        total_ticks = u64 (proc.total_ticks + 1);
      });
    }

unfoldable pub yield_from : Ptr → Processes → Option Processes
yield_from none ps = some ps
yield_from (some first) ps = elim (requeue first ps.current_process ps.table) [
  | none ↦ none
  | some m ↦ some (dispatch first (record ps { table = m }))
]

unfoldable pub process_yield : Processes → Option Processes
unfolding yield_from
process_yield ps = yield_from ps.ready_queue ps

-- An `int` as the `uint64_t` argument of `print_hex`.
abbrev pub widen_int : ℕ → ℕ
widen_int n = if ltb n (2 ^ 31) then n else n + 2 ^ 64 - 2 ^ 32

unfoldable pub exit_report : ℕ → Process → Console → Console
exit_report code proc t =
    print
      (text (bytes "[Process] Exit: ")
        ∷ text (c_string proc.name)
        ∷ text (bytes " with code ")
        ∷ number (widen_int code)
        ∷ text (bytes "\n")
        ∷ [])
      t

unfoldable pub process_exit : ℕ → Processes → Console → Option (Processes × Console)
process_exit code ps t = elim ps.current_process [
  | none ↦ some (ps, t)
  | some c ↦
      let t' = exit_report code (ps.table c) t in
      elim (process_yield (record ps { table = set_state c proc_zombie ps.table })) [
        | none ↦ none
        | some ps' ↦ some (ps', t')
      ]
]

unfoldable pub process_sleep : ℕ → Processes → Option Processes
unfolding process_yield
process_sleep ticks ps = elim ps.current_process [
  | none ↦ some ps
  | some c ↦ process_yield (record ps {
    table = store ps.table c (record (ps.table c) { sleep_until = ticks; state = proc_sleeping });
  })
]

unfoldable pub process_wakeup : Ptr → Processes → Processes
process_wakeup none ps = ps
process_wakeup (some s) ps =
    if (ps.table s).state == proc_sleeping
    then record ps {
      table = set_next s ps.ready_queue (set_state s proc_ready ps.table);
      ready_queue = some s;
    }
    else ps

unfoldable pub process_get_current : Processes → Ptr
process_get_current ps = ps.current_process

unfoldable pub find_pid : ℕ → ℕ → ℕ → (ℕ → Process) → Ptr
find_pid zero i pid m = none
find_pid (suc left) i pid m =
    let rest = find_pid left (i + 1) pid m in
    if ((m i).pid == pid) && not ((m i).state == proc_unused) then some i else rest

unfoldable pub process_get_by_pid : ℕ → Processes → Ptr
unfolding find_pid
process_get_by_pid pid ps = find_pid max_procs 0 pid ps.table
