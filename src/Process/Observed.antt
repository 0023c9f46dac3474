-- ===== src/Process/Observed.antt =====
-- What both versions of process.c show of the processes, and how they start over.
use mathlib.Core.Path.{subst}
use zer0s.Prelude.{
  ℕ, zero, suc, ◌+◌, ◌≡◌, ◌&&◌, ◌==◌, not, refl, sym, ap, ◌∙◌, none, some, if◌then◌else◌, store,
  for_rounds,
}
use zer0s.Console.{Console}
use zer0s.Process
use zer0s.Process.{Ptr, Process, Processes, cleared, proc_unused, find_pid, max_procs}
use zer0s.Process.Report
use zer0s.Process.Report.{list_line}
use zer0s.Process.Later
use zer0s.Process.Agree.{ticked, on_ticks, store-ticked, IsSameButTicks}

-- The functions that only read answer and print the same, but for process_stats.
pub record SameReports (ps qs : Processes) : Type 0 where
  pub current : Process.process_get_current ps ≡ Later.process_get_current qs
  pub by_pid : (pid : ℕ) → Process.process_get_by_pid pid ps ≡ Later.process_get_by_pid pid qs
  pub listed : (t : Console) → Report.process_list ps t ≡ Later.process_list qs t
  pub shown : (p : Ptr) (t : Console) → Report.process_info p ps t ≡ Later.process_info p qs t

find_pid-ticked :
    (left i pid : ℕ) (k : ℕ → ℕ) (m : ℕ → Process)
    → find_pid left i pid (ticked k m) ≡ find_pid left i pid m
unfolding find_pid
find_pid-ticked zero i pid k m = refl
find_pid-ticked (suc left) i pid k m =
    ap
      (λ (rest : Ptr).
        if ((m i).pid == pid) && not ((m i).state == proc_unused) then some i else rest)
      (find_pid-ticked left (i + 1) pid k m)

info-ticked :
    (k : ℕ → ℕ) (qs : Processes) (p : Ptr) (t : Console)
    → Report.process_info p (on_ticks k qs) t ≡ Later.process_info p qs t
unfolding Report.process_info Later.process_info
info-ticked k qs none t = refl
info-ticked k qs (some s) t = refl

on_ticks-SameReports : (k : ℕ → ℕ) (qs : Processes) → SameReports (on_ticks k qs) qs
unfolding Process.process_get_current Later.process_get_current Process.process_get_by_pid
    Later.process_get_by_pid Report.process_list Later.process_list list_line
on_ticks-SameReports k qs = record {
  current = refl;
  by_pid = λ pid. find_pid-ticked 256 0 pid k qs.table;
  listed = λ t. refl;
  shown = λ p t. info-ticked k qs p t;
}

-- The loop of process_init over slots with other ticks.
record IsCleared (rounds i : ℕ) (k : ℕ → ℕ) (m : ℕ → Process) : Type 0 where
  ticks : ℕ → ℕ
  same :
      for_rounds (λ i m. store m i cleared) rounds i (ticked k m)
      ≡ ticked ticks (for_rounds (λ i m. store m i cleared) rounds i m)

clear-ticked : (rounds i : ℕ) (k : ℕ → ℕ) (m : ℕ → Process) → IsCleared rounds i k m
unfolding for_rounds
clear-ticked zero i k m = record { ticks = k; same = refl }
clear-ticked (suc rounds) i k m =
    let rest = clear-ticked rounds (i + 1) (store k i 0) (store m i cleared) in
    record {
      ticks = rest.ticks;
      same =
          ap (λ (n : ℕ → Process). for_rounds (λ i m. store m i cleared) rounds (i + 1) n)
            (store-ticked k i 0 cleared m)
          ∙ rest.same;
    }

pub init-IsSameButTicks :
    (k : ℕ → ℕ) (qs : Processes) (t u : Console)
    → IsSameButTicks (Process.process_init (on_ticks k qs) t).0 (Later.process_init qs u).0
unfolding Process.process_init Later.process_init
init-IsSameButTicks k qs t u =
    let all = clear-ticked max_procs 0 k qs.table in
    record { ticks = all.ticks; same = ap (λ (m : ℕ → Process). record qs { table = m }) all.same }

pub IsSameButTicks-SameReports : (ps qs : Processes) → IsSameButTicks ps qs → SameReports ps qs
IsSameButTicks-SameReports ps qs is =
    subst (λ (p : Processes). SameReports p qs) (sym is.same) (on_ticks-SameReports is.ticks qs)
