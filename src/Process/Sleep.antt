-- ===== src/Process/Sleep.antt =====
-- What process_sleep, process_exit and process_wakeup do on a well-formed scheduler.
use mathlib.Core.Path.{subst}
use zer0s.Prelude.{
  ℕ, ◌<◌, ◌≡◌, ◌≢◌, refl, sym, ap, arith, true, false, Option, none, some, List, [], ◌∷◌, ◌==◌,
  store,
}
use zer0s.Console.{Console}
use zer0s.Process.{
  Process, Ptr, Processes, set_state, set_next, requeue, dispatch, yield_from, process_yield,
  exit_report, process_exit, process_sleep, process_wakeup, proc_ready, proc_running, proc_sleeping,
  proc_zombie,
}
use zer0s.Process.Queue.{Linked, has, All-mono, Linked-frame}
use zer0s.Process.Yield.{IsScheduled}

-- The process that ran stopped with the state `proc`, and the next one runs in its place.
pub record IsSwitched (ps : Processes) (c x : ℕ) (q : List ℕ) (proc : Process)
    (r : Option Processes) : Type 0 where
  pub after : Processes
  pub returned : r ≡ some after
  pub scheduled : IsScheduled after x q
  pub stopped : after.table c ≡ proc
  pub elsewhere : (p : ℕ) → has p (c ∷ x ∷ []) ≡ false → after.table p ≡ ps.table p

module _ {ps : Processes} {c x : ℕ} {q : List ℕ} (is : IsScheduled ps c (x ∷ q)) (proc : Process)
    (stops : proc.state ≢ proc_running) where
  abbrev stopped_table : ℕ → Process
  stopped_table = store ps.table c proc

  process_yield-stopped :
      process_yield (record ps { table = stopped_table })
      ≡ some (dispatch x (record ps { table = stopped_table }))
  unfolding process_yield requeue dispatch
  process_yield-stopped =
      let test : ((stopped_table c).state == proc_running) ≡ false = ground (arith, stops) in
      rw (is.linked.0, yield_from) (rw (is.current, requeue) (rw test refl))

  yield_stopped : IsSwitched ps c x q proc (process_yield (record ps { table = stopped_table }))
  unfolding dispatch
  yield_stopped =
      let same : (stopped_table x).next ≡ (ps.table x).next = ground (arith, is.distinct.0) in
      record {
        after = dispatch x (record ps { table = stopped_table });
        returned = process_yield-stopped;
        scheduled = record {
          current = refl;
          running = ground arith;
          linked = rw same (
              Linked-frame ps.table (dispatch x (record ps { table = stopped_table })).table
                (ps.table x).next q (λ y i. ground (arith, is.distinct.0, is.distinct.1.0))
                is.linked.1);
          ready =
              All-mono _ _ q (λ y i e. ground (arith, e, is.distinct.0, is.distinct.1.0))
                is.ready.1;
          distinct = is.distinct.1;
          inside = is.inside.1;
        };
        stopped = ground (arith, is.distinct.0);
        elsewhere = λ p out. ground (arith, out);
      }

-- The caller of `process_sleep`, with what it waits for.
abbrev pub asleep : ℕ → Process → Process
asleep ticks proc = record proc { sleep_until = ticks; state = proc_sleeping }

-- On a well-formed scheduler with another process in the queue, `process_sleep` returns: the caller
-- sleeps, outside the queue, the next process runs, and no other one changes.
pub process_sleep-IsSwitched :
    {ps : Processes} {c x : ℕ} {q : List ℕ} (ticks : ℕ)
    → IsScheduled ps c (x ∷ q)
    → IsSwitched ps c x q (asleep ticks (ps.table c)) (process_sleep ticks ps)
unfolding process_sleep
process_sleep-IsSwitched {ps} {c} {x} {q} ticks is =
    let away = yield_stopped is (asleep ticks (ps.table c)) (omega arith) in
    record {
      after = away.after;
      returned = rw (process_sleep, is.current) away.returned;
      scheduled = away.scheduled;
      stopped = away.stopped;
      elsewhere = away.elsewhere;
    }

-- A process that sleeps, outside the queue, is put in front of the queue by `process_wakeup`.
pub process_wakeup-IsScheduled :
    {ps : Processes} {c : ℕ} {q : List ℕ} (s : ℕ)
    → IsScheduled ps c q
    → (ps.table s).state ≡ proc_sleeping
    → s < 256
    → has s (c ∷ q) ≡ false
    → IsScheduled (process_wakeup (some s) ps) c (s ∷ q)
unfolding process_wakeup set_next set_state
process_wakeup-IsScheduled {ps} {c} {q} s is sleeps lt out =
    let test : ((ps.table s).state == proc_sleeping) ≡ true = ground (arith, sleeps) in
    let woken = set_next s ps.ready_queue (set_state s proc_ready ps.table) in
    let front : (woken s).next ≡ ps.ready_queue = ground arith in
    rw test (record {
      current = is.current;
      running = ground (arith, is.running, out);
      linked = (
        refl,
        subst (λ (p : Ptr). Linked woken p q) (sym front)
            (Linked-frame ps.table woken ps.ready_queue q (λ y i. ground (arith, out)) is.linked),
      );
      ready = (ground arith, All-mono _ _ q (λ y i e. ground (arith, e, out)) is.ready);
      distinct = (ground (arith, is.distinct.0, out), (ground (arith, out), is.distinct.1));
      inside = (is.inside.0, (lt, is.inside.1));
    })

-- A sleep and a wakeup of the same process put it in front of the queue, behind which the next one
-- runs.
pub process_wakeup-process_sleep :
    {ps after : Processes} {c x : ℕ} {q : List ℕ} (ticks : ℕ)
    → IsScheduled ps c (x ∷ q)
    → process_sleep ticks ps ≡ some after
    → IsScheduled (process_wakeup (some c) after) x (c ∷ q)
process_wakeup-process_sleep {ps} {after} {c} {x} {q} ticks is out =
    let slept = process_sleep-IsSwitched ticks is in
    let same : slept.after ≡ after = ground (arith, slept.returned, out) in
    subst (λ (a : Processes). IsScheduled (process_wakeup (some c) a) x (c ∷ q)) same
      (process_wakeup-IsScheduled c slept.scheduled (ap (λ (p : Process). p.state) slept.stopped)
        is.inside.0 (ground (arith, is.distinct.0, is.distinct.1.0)))

process_exit-process_yield :
    (ps : Processes) {after : Processes} {c : ℕ} (code : ℕ) (t : Console)
    → ps.current_process ≡ some c
    → process_yield (record ps { table = set_state c proc_zombie ps.table }) ≡ some after
    → process_exit code ps t ≡ some (after, exit_report code (ps.table c) t)
unfolding process_exit
process_exit-process_yield ps code t current e = rw (process_exit, current) (rw e refl)

process_yield-empty : (ps : Processes) → ps.ready_queue ≡ none → process_yield ps ≡ some ps
unfolding process_yield yield_from
process_yield-empty ps e = subst (λ (p : Ptr). yield_from p ps ≡ some ps) (sym e) refl

-- `process_exit` on a well-formed scheduler with another process in the queue reports it and
-- returns: the caller is a zombie, outside the queue, the next process runs, and no other one
-- changes.
pub process_exit-IsSwitched :
    {ps : Processes} {c x : ℕ} {q : List ℕ} (code : ℕ) (t : Console)
    → IsScheduled ps c (x ∷ q)
    → (away : IsSwitched ps c x q
        (record (ps.table c) { state = proc_zombie })
        (process_yield (record ps { table = set_state c proc_zombie ps.table })))
      × (process_exit code ps t ≡ some (away.after, exit_report code (ps.table c) t))
unfolding process_exit set_state
process_exit-IsSwitched {ps} {c} {x} {q} code t is =
    let away = yield_stopped is (record (ps.table c) { state = proc_zombie }) (omega arith) in
    (away, process_exit-process_yield _ code t is.current away.returned)

-- With an empty queue `process_exit` returns to its caller, which stays the current process as a
-- zombie.
pub process_exit_alone :
    {ps : Processes} {c : ℕ} (code : ℕ) (t : Console)
    → IsScheduled ps c []
    → process_exit code ps t
      ≡ some
          (record ps { table = set_state c proc_zombie ps.table }, exit_report code (ps.table c) t)
process_exit_alone code t is =
    process_exit-process_yield _ code t is.current (process_yield-empty _ is.linked)
