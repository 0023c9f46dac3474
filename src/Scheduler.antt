-- ===== src/Scheduler.antt =====
-- The ready list of kernel/core/scheduler.c, over the process table.
pub mod Rotation
mod Tests
use zer0s.Prelude.{
  ℕ, zero, suc, ◌+◌, ◌==◌, if◌then◌else◌, Bool, true, false, Option, none, some, store, u64, bytes,
}
use zer0s.Console.{Console, terminal_writestring}
use zer0s.Process.{Process, Ptr, proc_ready, set_next, append_last, walk_fuel, set_state}

-- The statics of the file, and the processes, which it does not own.
pub record Scheduler : Type 0 where
  pub table : ℕ → Process
  pub ready_list : Ptr
  pub tick_count : ℕ

unfoldable pub scheduler_init : Scheduler → Console → Scheduler × Console
scheduler_init s t = (
  record s { ready_list = none; tick_count = 0 },
  terminal_writestring (bytes "[Scheduler] Ready\n")
      (terminal_writestring (bytes "[Scheduler] Initializing round-robin scheduler...\n") t),
)

unfoldable pub scheduler_add : Ptr → Scheduler → Console → Scheduler × Console
scheduler_add none s t = (s, t)
scheduler_add (some proc) s t = (
  record s {
    table = set_next proc s.ready_list (set_state proc proc_ready s.table);
    ready_list = some proc;
  },
  terminal_writestring (bytes "[Scheduler] Added process to ready queue\n") t,
)

-- Where a pointer to a process is kept: what `current` points to in `scheduler_remove`.
pub data Cell : Type 0 where
  list_head : Cell
  next_of : ℕ → Cell

abbrev pub read_cell : Cell → Scheduler → Ptr
read_cell list_head s = s.ready_list
read_cell (next_of p) s = (s.table p).next

abbrev pub write_cell : Cell → Ptr → Scheduler → Scheduler
write_cell list_head p s = record s { ready_list = p }
write_cell (next_of q) p s = record s { table = set_next q p s.table }

-- The walk of `scheduler_remove`. `none` is a walk that does not end within the fuel.
unfoldable pub unlink : (fuel : ℕ) → Cell → (proc : ℕ) → Scheduler → Option Scheduler
unlink zero cell proc s = none
unlink (suc fuel) cell proc s = elim (read_cell cell s) [
  | none ↦ some s
  | some current ↦ elim (current == proc) [
    | true ↦
        let s' = write_cell cell (s.table proc).next s in
        some (record s' { table = set_next proc none s'.table })
    | false ↦ unlink fuel (next_of current) proc s
  ]
]

unfoldable pub scheduler_remove : Ptr → Scheduler → Option Scheduler
unfolding unlink
scheduler_remove none s = some s
scheduler_remove (some proc) s = unlink walk_fuel list_head proc s

unfoldable pub scheduler_tick : Scheduler → Scheduler
scheduler_tick s = record s { tick_count = u64 (s.tick_count + 1) }

-- The body of `scheduler_yield` under its test, for the first two of the list.
unfoldable pub rotate : (first second : ℕ) → Scheduler → Option Scheduler
rotate first second s = elim (append_last walk_fuel second first s.table) [
  | none ↦ none
  | some m ↦ some (record s { table = set_next first none m; ready_list = some second })
]

unfoldable pub scheduler_yield : Scheduler → Option Scheduler
unfolding rotate
scheduler_yield s = elim s.ready_list [
  | none ↦ some s
  | some first ↦ elim (s.table first).next [ none ↦ some s | some second ↦ rotate first second s ]
]
