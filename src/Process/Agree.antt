-- ===== src/Process/Agree.antt =====
-- Both versions of process.c side by side.
use mathlib.Core.Path.{subst, fun_ext}
use zer0s.Prelude.{
  ℕ, zero, suc, ◌+◌, ◌≡◌, refl, sym, ap, ◌∙◌, arith, Bool-cases, inl, inr, Option, none, some, ◌==◌,
  store, u64,
}
use zer0s.Process
use zer0s.Process.{
  Ptr, Process, Processes, is_free, find_free_slot, find_free_process, process_create,
  process_wakeup, append_last, walk_fuel, set_state, set_next, requeue, proc_sleeping, proc_ready,
  proc_running,
}
use zer0s.Process.Later

-- A table with other ticks.
abbrev pub ticked : (ℕ → ℕ) → (ℕ → Process) → (ℕ → Process)
ticked k m = λ i. record (m i) { total_ticks = k i }

pub store-ticked :
    (k : ℕ → ℕ) (s v : ℕ) (p : Process) (m : ℕ → Process)
    → store (ticked k m) s (record p { total_ticks = v }) ≡ ticked (store k s v) (store m s p)
store-ticked k s v p m =
    fun_ext (λ i. elim (Bool-cases (s == i)) [ inl e ↦ rw e refl | inr e ↦ rw e refl ])

store-same : (k : ℕ → ℕ) (s : ℕ) → store k s (k s) ≡ k
store-same k s = fun_ext (λ i. ground arith)

-- A change of a process but for its ticks.
pub changed-ticked :
    (k : ℕ → ℕ) (s : ℕ) (p : Process) (m : ℕ → Process)
    → store (ticked k m) s (record p { total_ticks = k s }) ≡ ticked k (store m s p)
changed-ticked k s p m =
    store-ticked k s (k s) p m ∙ ap (λ (j : ℕ → ℕ). ticked j (store m s p)) (store-same k s)

pub set_next-ticked :
    (k : ℕ → ℕ) (s : ℕ) (n : Ptr) (m : ℕ → Process)
    → set_next s n (ticked k m) ≡ ticked k (set_next s n m)
unfolding set_next
set_next-ticked k s n m = changed-ticked k s (record (m s) { next = n }) m

pub set_state-ticked :
    (k : ℕ → ℕ) (s state : ℕ) (m : ℕ → Process)
    → set_state s state (ticked k m) ≡ ticked k (set_state s state m)
unfolding set_state
set_state-ticked k s state m = changed-ticked k s (record (m s) { state = state }) m

abbrev tick_all : (ℕ → ℕ) → Option (ℕ → Process) → Option (ℕ → Process)
tick_all k none = none
tick_all k (some m) = some (ticked k m)

append_last-ticked :
    (k : ℕ → ℕ) (fuel last proc : ℕ) (m : ℕ → Process)
    → append_last fuel last proc (ticked k m) ≡ tick_all k (append_last fuel last proc m)
unfolding append_last
append_last-ticked k zero last proc m = refl
append_last-ticked k (suc fuel) last proc m =
    elim (m last).next
      as (λ (n : Ptr).
        elim n [
          | none ↦ some (set_next last (some proc) (ticked k m))
          | some next ↦ append_last fuel next proc (ticked k m)
        ]
        ≡ tick_all k (elim n [
          | none ↦ some (set_next last (some proc) m)
          | some next ↦ append_last fuel next proc m
        ])) [
          | none ↦ ap some (set_next-ticked k last (some proc) m)
          | some next ↦ append_last-ticked k fuel next proc m
        ]

end-ticked :
    (k : ℕ → ℕ) (c : ℕ) (r : Option (ℕ → Process))
    → elim (tick_all k r) [ none ↦ none | some m ↦ some (set_next c none m) ]
      ≡ tick_all k (elim r [ none ↦ none | some m ↦ some (set_next c none m) ])
end-ticked k c none = refl
end-ticked k c (some m) = ap some (set_next-ticked k c none m)

requeue-ticked :
    (k : ℕ → ℕ) (first : ℕ) (c : Ptr) (m : ℕ → Process)
    → requeue first c (ticked k m) ≡ tick_all k (requeue first c m)
unfolding requeue
requeue-ticked k first none m = refl
requeue-ticked k first (some c) m = elim (Bool-cases ((m c).state == proc_running)) [
  | inl on ↦
      rw
        (
          on,
          set_state-ticked k c proc_ready m,
          append_last-ticked k walk_fuel first c (set_state c proc_ready m),
        )
        (end-ticked k c _)
  | inr off ↦ rw off refl
]

abbrev pub on_ticks : (ℕ → ℕ) → Processes → Processes
on_ticks k ps = record ps { table = ticked k ps.table }

-- The same processes but for their ticks.
pub record IsSameButTicks (ps qs : Processes) : Type 0 where
  pub ticks : ℕ → ℕ
  pub same : ps ≡ record qs { table = ticked ticks qs.table }

-- Neither run ends, or both do and leave the same.
abbrev pub Agree : Option Processes → Option Processes → Type 0
Agree none none = Unit
Agree none (some qs) = ⊥
Agree (some ps) none = ⊥
Agree (some ps) (some qs) = IsSameButTicks ps qs

dispatch-Agree :
    (k : ℕ → ℕ) (s : ℕ) (qs : Processes)
    → IsSameButTicks (Process.dispatch s (on_ticks k qs)) (Later.dispatch s qs)
unfolding Process.dispatch Later.dispatch
dispatch-Agree k s qs = record {
  ticks = store k s (u64 (k s + 1));
  same =
      ap
        (λ (m : ℕ → Process). record qs {
          current_process = some s;
          ready_queue = (qs.table s).next;
          table = m;
        })
        (store-ticked k s (u64 (k s + 1))
          (record (qs.table s) { next = none; state = proc_running }) qs.table);
}

dispatched-Agree :
    (k : ℕ → ℕ) (first : ℕ) (qs : Processes) (r : Option (ℕ → Process))
    → Agree
        (elim (tick_all k r) [
          | none ↦ none
          | some m ↦ some (Process.dispatch first (record qs { table = m }))
        ])
        (elim r [ none ↦ none | some m ↦ some (Later.dispatch first (record qs { table = m })) ])
dispatched-Agree k first qs none = tt
dispatched-Agree k first qs (some m) = dispatch-Agree k first (record qs { table = m })

yield_from-Agree :
    (k : ℕ → ℕ) (first : Ptr) (qs : Processes)
    → Agree (Process.yield_from first (on_ticks k qs)) (Later.yield_from first qs)
unfolding Process.yield_from Later.yield_from
yield_from-Agree k none qs = record { ticks = k; same = refl }
yield_from-Agree k (some first) qs =
    let r = requeue first qs.current_process qs.table in
    subst
      (λ (t : Option (ℕ → Process)).
        Agree
          (elim t [
            | none ↦ none
            | some m ↦ some (Process.dispatch first (record qs { table = m }))
          ])
          (elim r [ none ↦ none | some m ↦ some (Later.dispatch first (record qs { table = m })) ]))
      (sym (requeue-ticked k first qs.current_process qs.table)) (dispatched-Agree k first qs r)

pub process_yield-Agree :
    (k : ℕ → ℕ) (qs : Processes)
    → Agree (Process.process_yield (on_ticks k qs)) (Later.process_yield qs)
unfolding Process.process_yield Later.process_yield
process_yield-Agree k qs = yield_from-Agree k qs.ready_queue qs

-- With another process in the place of the running one.
pub changed-Agree :
    (k : ℕ → ℕ) (c : ℕ) (p : Process) (qs : Processes)
    → Agree
        (Process.process_yield
          (record qs { table = store (ticked k qs.table) c (record p { total_ticks = k c }) }))
        (Later.process_yield (record qs { table = store qs.table c p }))
changed-Agree k c p qs =
    rw (changed-ticked k c p qs.table)
      (process_yield-Agree k (record qs { table = store qs.table c p }))
