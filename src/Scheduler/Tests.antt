-- ===== src/Scheduler/Tests.antt =====
-- A ready list of the slots 0, 1 and 2.
use zer0s.Prelude.{suc, ◌≡◌, refl, arith, none, some, [], ◌∷◌, ltb, if◌then◌else◌}
use zer0s.Process.{cleared}
use zer0s.Process.Queue.{Linked}
use zer0s.Scheduler.{Scheduler, scheduler_yield}
use zer0s.Scheduler.Rotation.{IsReadyList, without, scheduler_yield_rotates}

abbrev three : Scheduler
three = record {
  table = λ i. record cleared { next = if ltb i 2 then some (suc i) else none };
  ready_list = some 0;
  tick_count = 0;
}

three-IsReadyList : IsReadyList three (0 ∷ 1 ∷ 2 ∷ [])
three-IsReadyList = record {
  linked = (refl, (refl, (refl, refl)));
  distinct = (refl, (refl, (refl, tt)));
  fits = omega arith;
}

scheduler_yield_rotates_example :
    (after : Scheduler) × (scheduler_yield three ≡ some after)
    × Linked after.table after.ready_list (1 ∷ 2 ∷ 0 ∷ [])
scheduler_yield_rotates_example = scheduler_yield_rotates three 0 1 (2 ∷ []) three-IsReadyList

removed : without 1 (0 ∷ 1 ∷ 2 ∷ []) ≡ 0 ∷ 2 ∷ []
unfolding without
removed = refl
