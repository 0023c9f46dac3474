-- ===== src/Process/Versions.antt =====
-- Runs of both versions of process.c.
use mathlib.Core.Path.{subst}
use zer0s.Prelude.{ℕ, refl, sym, Option, none, some, List, [], ◌∷◌}
use zer0s.Console.{Console}
use zer0s.Heap.{Heap}
use zer0s.Process
use zer0s.Process.{
  Ptr, Process, Processes, is_free, find_free_slot, find_free_process, process_create,
  process_wakeup, set_state, set_next, proc_sleeping, proc_ready, proc_dead, proc_zombie,
  proc_stack_size, new_process, start_process, exit_report,
}
use zer0s.Process.Later
use zer0s.Process.Agree.{on_ticks, process_yield-Agree}
use zer0s.Process.NewProcess.{create-AgreeAll}
use zer0s.Process.Observed.{SameReports, init-IsSameButTicks, IsSameButTicks-SameReports}
use zer0s.Process.Calls.{
  Call, init, create, destroy, exit, yield, sleep, wakeup, list, info, stats, State, call_first,
  call_later, run, IsSame, AgreeAll, Agree-AgreeAll, wakeup-IsSameButTicks, destroy-IsSameButTicks,
  exit-AgreeAll, sleep-AgreeAll,
}

call-AgreeAll :
    (c : Call) (k : ℕ → ℕ) (qs : Processes) (h : Heap) (t u : Console)
    → AgreeAll (call_first c (on_ticks k qs, h, t)) (call_later c (qs, h, u))
unfolding Process.process_destroy Later.process_destroy Process.process_wakeup Later.process_wakeup
call-AgreeAll init k qs h t u = record { processes = init-IsSameButTicks k qs t u; heap = refl }
call-AgreeAll (create name entry priority flags) k qs h t u =
    create-AgreeAll name entry priority flags k qs h t u
call-AgreeAll (destroy none) k qs h t u = record {
  processes = record { ticks = k; same = refl };
  heap = refl;
}
call-AgreeAll (destroy (some s)) k qs h t u = record {
  processes = destroy-IsSameButTicks k s qs;
  heap = refl;
}
call-AgreeAll (exit code) k qs h t u =
    exit-AgreeAll code k qs.current_process qs.table qs.ready_queue qs.next_pid h t u
call-AgreeAll yield k qs h t u = Agree-AgreeAll h t u _ _ (process_yield-Agree k qs)
call-AgreeAll (sleep ticks) k qs h t u =
    sleep-AgreeAll ticks k qs.current_process qs.table qs.ready_queue qs.next_pid h t u
call-AgreeAll (wakeup none) k qs h t u = record {
  processes = record { ticks = k; same = refl };
  heap = refl;
}
call-AgreeAll (wakeup (some s)) k qs h t u = record {
  processes = wakeup-IsSameButTicks k s qs;
  heap = refl;
}
call-AgreeAll list k qs h t u = record {
  processes = record { ticks = k; same = refl };
  heap = refl;
}
call-AgreeAll (info proc) k qs h t u = record {
  processes = record { ticks = k; same = refl };
  heap = refl;
}
call-AgreeAll (stats proc) k qs h t u = record {
  processes = record { ticks = k; same = refl };
  heap = refl;
}

call_first-AgreeAll :
    (c : Call) (x y : State) → IsSame x y → AgreeAll (call_first c x) (call_later c y)
call_first-AgreeAll c x y is =
    subst (λ (ps : Processes). AgreeAll (call_first c (ps, x.1, x.2)) (call_later c y))
      (sym is.processes.same)
      (subst
        (λ (h : Heap).
          AgreeAll (call_first c (on_ticks is.processes.ticks y.0, h, x.2)) (call_later c y))
        (sym is.heap) (call-AgreeAll c is.processes.ticks y.0 y.1 x.2 y.2))

-- What comes next in the two runs.
next-AgreeAll :
    (cs : List Call) (r r' : Option State)
    → AgreeAll r r'
    → ((x y : State) → IsSame x y → AgreeAll (run call_first cs x) (run call_later cs y))
    → AgreeAll
        (elim r [ none ↦ none | some s ↦ run call_first cs s ])
        (elim r' [ none ↦ none | some s ↦ run call_later cs s ])
next-AgreeAll cs none none a next = tt
next-AgreeAll cs none (some y) a next = elim a [ ]
next-AgreeAll cs (some x) none a next = elim a [ ]
next-AgreeAll cs (some x) (some y) a next = next x y a

run-AgreeAll :
    (cs : List Call) (x y : State)
    → IsSame x y
    → AgreeAll (run call_first cs x) (run call_later cs y)
unfolding run
run-AgreeAll [] x y is = is
run-AgreeAll (c ∷ cs) x y is =
    next-AgreeAll cs _ _ (call_first-AgreeAll c x y is) (λ x y is. run-AgreeAll cs x y is)

-- What two runs leave: the same heap, the same processes but for their ticks, and the same answers
-- and reports of them.
pub record IsAlike (x y : State) : Type 0 where
  pub same : IsSame x y
  pub reports : SameReports x.0 y.0

abbrev pub AreAlike : Option State → Option State → Type 0
AreAlike none none = Unit
AreAlike none (some y) = ⊥
AreAlike (some x) none = ⊥
AreAlike (some x) (some y) = IsAlike x y

AgreeAll-AreAlike : (r r' : Option State) → AgreeAll r r' → AreAlike r r'
AgreeAll-AreAlike none none a = tt
AgreeAll-AreAlike none (some y) a = elim a [ ]
AgreeAll-AreAlike (some x) none a = elim a [ ]
AgreeAll-AreAlike (some x) (some y) a = record {
  same = a;
  reports = IsSameButTicks-SameReports x.0 y.0 a.processes;
}

-- From the same heap and the same processes but for their ticks, every sequence of calls leaves the
-- same by both versions, or neither run comes to an end. What the two then answer for the current
-- process, for a process by its pid, and print for process_list and process_info, is the same. The
-- screens differ.
pub run-AreAlike :
    (cs : List Call) (x y : State)
    → IsSame x y
    → AreAlike (run call_first cs x) (run call_later cs y)
run-AreAlike cs x y is = AgreeAll-AreAlike _ _ (run-AgreeAll cs x y is)
