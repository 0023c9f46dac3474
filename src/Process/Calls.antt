-- ===== src/Process/Calls.antt =====
-- The calls of the process manager, by both versions of process.c.
use zer0s.Prelude.{
  ℕ, ◌≡◌, refl, ap, ◌∙◌, Bool-cases, inl, inr, Option, none, some, List, [], ◌∷◌, ◌==◌,
}
use zer0s.Console.{Console}
use zer0s.Heap.{Heap}
use zer0s.Process
use zer0s.Process.{
  Ptr, Process, Processes, is_free, find_free_slot, find_free_process, process_create,
  process_wakeup, set_state, set_next, proc_sleeping, proc_ready, proc_dead, proc_zombie,
  proc_stack_size, new_process, start_process, exit_report,
}
use zer0s.Process.Report
use zer0s.Process.Later
use zer0s.Process.Agree.{
  ticked, on_ticks, set_state-ticked, set_next-ticked, IsSameButTicks, Agree, changed-Agree,
}

-- A call of the process manager.
pub data Call : Type 0 where
  init : Call
  create : (name : List ℕ) (entry priority flags : ℕ) → Call
  destroy : (proc : Ptr) → Call
  exit : (code : ℕ) → Call
  yield : Call
  sleep : (ticks : ℕ) → Call
  wakeup : (proc : Ptr) → Call
  list : Call
  info : (proc : Ptr) → Call
  stats : (proc : Ptr) → Call

abbrev pub State : Type 0
State = Processes × Heap × Console

abbrev pub with_heap : Heap → Console → Option Processes → Option State
with_heap h t none = none
with_heap h t (some ps) = some (ps, h, t)

abbrev pub between : Heap → Option (Processes × Console) → Option State
between h none = none
between h (some (ps, t)) = some (ps, h, t)

abbrev pub without_ptr : Option (Ptr × Processes × Heap × Console) → Option State
without_ptr none = none
without_ptr (some (p, ps, h, t)) = some (ps, h, t)

-- By the definitions up to line 207.
abbrev pub call_first : Call → State → Option State
call_first init (ps, h, t) = let (ps', t') = Process.process_init ps t in some (ps', h, t')
call_first (create name entry priority flags) (ps, h, t) =
    without_ptr (Process.process_create name entry priority flags ps h t)
call_first (destroy proc) (ps, h, t) = some (Process.process_destroy proc ps h t)
call_first (exit code) (ps, h, t) = between h (Process.process_exit code ps t)
call_first yield (ps, h, t) = with_heap h t (Process.process_yield ps)
call_first (sleep ticks) (ps, h, t) = with_heap h t (Process.process_sleep ticks ps)
call_first (wakeup proc) (ps, h, t) = some (Process.process_wakeup proc ps, h, t)
call_first list (ps, h, t) = some (ps, h, Report.process_list ps t)
call_first (info proc) (ps, h, t) = some (ps, h, Report.process_info proc ps t)
call_first (stats proc) (ps, h, t) = some (ps, h, Report.process_stats proc ps t)

-- By those from line 210 on.
abbrev pub call_later : Call → State → Option State
call_later init (ps, h, t) = let (ps', t') = Later.process_init ps t in some (ps', h, t')
call_later (create name entry priority flags) (ps, h, t) =
    without_ptr (Later.process_create name entry priority flags ps h t)
call_later (destroy proc) (ps, h, t) =
    let (ps', h') = Later.process_destroy proc ps h in some (ps', h', t)
call_later (exit code) (ps, h, t) = with_heap h t (Later.process_exit ps)
call_later yield (ps, h, t) = with_heap h t (Later.process_yield ps)
call_later (sleep ticks) (ps, h, t) = with_heap h t (Later.process_sleep ticks ps)
call_later (wakeup proc) (ps, h, t) = some (Later.process_wakeup proc ps, h, t)
call_later list (ps, h, t) = some (ps, h, Later.process_list ps t)
call_later (info proc) (ps, h, t) = some (ps, h, Later.process_info proc ps t)
call_later (stats proc) (ps, h, t) = some (ps, h, Later.process_stats proc ps t)

unfoldable pub run : (Call → State → Option State) → List Call → State → Option State
run call [] s = some s
run call (c ∷ cs) s = elim (call c s) [ none ↦ none | some s' ↦ run call cs s' ]

-- The same heap, and the same processes but for their ticks; the screens may differ.
pub record IsSame (x y : State) : Type 0 where
  pub processes : IsSameButTicks x.0 y.0
  pub heap : x.1 ≡ y.1

abbrev pub AgreeAll : Option State → Option State → Type 0
AgreeAll none none = Unit
AgreeAll none (some y) = ⊥
AgreeAll (some x) none = ⊥
AgreeAll (some x) (some y) = IsSame x y

pub Agree-AgreeAll :
    (h : Heap) (t u : Console) (r r' : Option Processes)
    → Agree r r'
    → AgreeAll (with_heap h t r) (with_heap h u r')
Agree-AgreeAll h t u none none a = tt
Agree-AgreeAll h t u none (some qs) a = elim a [ ]
Agree-AgreeAll h t u (some ps) none a = elim a [ ]
Agree-AgreeAll h t u (some ps) (some qs) a = record { processes = a; heap = refl }

pub wakeup-IsSameButTicks :
    (k : ℕ → ℕ) (s : ℕ) (qs : Processes)
    → IsSameButTicks
        (Process.process_wakeup (some s) (on_ticks k qs))
        (Later.process_wakeup (some s) qs)
unfolding Process.process_wakeup Later.process_wakeup
wakeup-IsSameButTicks k s qs = elim (Bool-cases ((qs.table s).state == proc_sleeping)) [
  | inl asleep ↦ rw asleep (record {
    ticks = k;
    same =
        ap
          (λ (m : ℕ → Process). record qs {
            ready_queue = some s;
            table = set_next s qs.ready_queue m;
          })
          (set_state-ticked k s proc_ready qs.table)
        ∙ ap (λ (m : ℕ → Process). record qs { ready_queue = some s; table = m })
            (set_next-ticked k s qs.ready_queue (set_state s proc_ready qs.table));
  })
  | inr awake ↦ rw awake (record { ticks = k; same = refl })
]

pub destroy-IsSameButTicks :
    (k : ℕ → ℕ) (s : ℕ) (qs : Processes)
    → IsSameButTicks
        (record qs { table = set_state s proc_dead (ticked k qs.table) })
        (record qs { table = set_state s proc_dead qs.table })
destroy-IsSameButTicks k s qs = record {
  ticks = k;
  same =
      ap (λ (m : ℕ → Process). record qs { table = m }) (set_state-ticked k s proc_dead qs.table);
}

exited-AgreeAll :
    (h : Heap) (t u : Console) (r r' : Option Processes)
    → Agree r r'
    → AgreeAll (between h (elim r [ none ↦ none | some ps ↦ some (ps, t) ])) (with_heap h u r')
exited-AgreeAll h t u none none a = tt
exited-AgreeAll h t u none (some qs) a = elim a [ ]
exited-AgreeAll h t u (some ps) none a = elim a [ ]
exited-AgreeAll h t u (some ps) (some qs) a = record { processes = a; heap = refl }

abbrev pub processes : (ℕ → Process) → (current_process ready_queue : Ptr) → ℕ → Processes
processes table current_process ready_queue next_pid = record {
  table = table;
  current_process = current_process;
  ready_queue = ready_queue;
  next_pid = next_pid;
}

pub exit-AgreeAll :
    (code : ℕ) (k : ℕ → ℕ) (c : Ptr) (m : ℕ → Process) (q : Ptr) (n : ℕ) (h : Heap) (t u : Console)
    → AgreeAll
        (between h (Process.process_exit code (processes (ticked k m) c q n) t))
        (with_heap h u (Later.process_exit (processes m c q n)))
unfolding Process.process_exit Later.process_exit set_state
exit-AgreeAll code k none m q n h t u = record {
  processes = record { ticks = k; same = refl };
  heap = refl;
}
exit-AgreeAll code k (some c) m q n h t u =
    exited-AgreeAll h _ u _ _
      (changed-Agree k c (record (m c) { state = proc_zombie }) (processes m (some c) q n))

pub sleep-AgreeAll :
    (ticks : ℕ) (k : ℕ → ℕ) (c : Ptr) (m : ℕ → Process) (q : Ptr) (n : ℕ) (h : Heap) (t u : Console)
    → AgreeAll
        (with_heap h t (Process.process_sleep ticks (processes (ticked k m) c q n)))
        (with_heap h u (Later.process_sleep ticks (processes m c q n)))
unfolding Process.process_sleep Later.process_sleep
sleep-AgreeAll ticks k none m q n h t u = record {
  processes = record { ticks = k; same = refl };
  heap = refl;
}
sleep-AgreeAll ticks k (some c) m q n h t u = Agree-AgreeAll h t u _ _ (
    changed-Agree k c (record (m c) { sleep_until = ticks; state = proc_sleeping })
      (processes m (some c) q n))
