-- ===== src/Process/Lost.antt =====
-- `process_create` where the heap has no room for a stack.
use mathlib.Core.Path.{subst}
use zer0s.Prelude.{
  ℕ, zero, suc, ◌+◌, ◌≤◌, ◌<◌, ◌≡◌, ◌∙◌, sym, refl, inl, inr, Bool-cases, Option-cases, true, false,
  Option, none, some, List, arith, ◌==◌, store, u64, bytes,
}
use native.Mathlib.Decide.{dec_lt}
use zer0s.Console.{Console, terminal_writestring}
use zer0s.Heap.{Heap, heap_init, align8, kmalloc}
use zer0s.Heap.Live.{IsHeap, NoneFits, heap_init-id, NoneFits-first_fit}
use zer0s.Heap.Alloc.{kmalloc-Refused}
use zer0s.Process.{
  Processes, is_free, find_free_process, new_process, process_create, proc_ready, proc_stack_size,
}
use zer0s.Process.Queue.{All-mono, Linked-frame}
use zer0s.Process.Search.{IsSearched, find_free_slot-some, find_free_slot-none, taken-none}
use zer0s.Process.Create.{not_queued}
use zer0s.Process.Yield.{IsScheduled}

-- A well-formed heap in which no free chunk holds a stack.
pub record IsFull (g : Heap) : Type 0 where
  pub live : List (ℕ × ℕ)
  pub state : IsHeap g live
  pub full : NoneFits (align8 proc_stack_size) state.chunks

IsFull-again : (h : Heap) → IsFull (heap_init h) → IsFull (heap_init (heap_init h))
IsFull-again h is = subst IsFull (sym (heap_init-id is.state)) is

abbrev refusal : Console → Console
refusal t = terminal_writestring (bytes "[ERROR] kmalloc: Out of heap memory!\n") t

no_stack :
    (h : Heap) (t : Console)
    → IsFull (heap_init h)
    → kmalloc proc_stack_size h t ≡ some (0, heap_init h, refusal t)
no_stack h t is =
    (kmalloc-Refused h proc_stack_size t (omega arith) is.state
      (NoneFits-first_fit (align8 proc_stack_size) 0x2000000 is.state.chunks is.full)).returned

-- `n` calls in a row, all of which return `NULL`.
unfoldable pub failures :
    ℕ
    → List ℕ
    → (entry priority flags : ℕ) → Processes
    → Heap
    → Console
    → Option (Processes × Heap × Console)
failures zero name entry priority flags ps h t = some (ps, h, t)
failures (suc n) name entry priority flags ps h t =
    elim (process_create name entry priority flags ps h t) [
      | none ↦ none
      | some (p, ps', h', t') ↦ elim p [
        | none ↦ failures n name entry priority flags ps' h' t'
        | some s ↦ none
      ]
    ]

-- The slots below `k` are taken, and the queue is as it was.
record IsLeaked (k c : ℕ) (q : List ℕ) (ps : Processes) : Type 0 where
  taken : (j : ℕ) → j < k → is_free (ps.table j) ≡ false
  scheduled : IsScheduled ps c q

-- A new process in a free slot, outside the queue.
abbrev leak : List ℕ → (priority flags s : ℕ) → Processes → Processes
leak name priority flags s ps = record ps {
  table = store ps.table s (new_process name priority flags ps.next_pid);
  next_pid = u64 (ps.next_pid + 1);
}

leak-IsScheduled :
    (name : List ℕ) (priority flags s c : ℕ) (q : List ℕ) (ps : Processes)
    → is_free (ps.table s) ≡ true
    → IsScheduled ps c q
    → IsScheduled (leak name priority flags s ps) c q
leak-IsScheduled name priority flags s c q ps free is =
    let outside = not_queued s ps.table q free is.ready in
    let table = (leak name priority flags s ps).table in
    record {
      current = is.current;
      running = ground (arith, is.running, free);
      linked =
          Linked-frame ps.table table ps.ready_queue q (λ x i. ground (arith, outside, i))
            is.linked;
      ready =
          All-mono (λ x. (ps.table x).state ≡ proc_ready) (λ x. (table x).state ≡ proc_ready) q
            (λ x i e. ground (arith, outside, i, e)) is.ready;
      distinct = is.distinct;
      inside = is.inside;
    }

leak-IsLeaked :
    (name : List ℕ) (priority flags k s c : ℕ) (q : List ℕ) (ps : Processes)
    → IsSearched ps.table 0 256 s
    → IsLeaked k c q ps
    → IsLeaked (k + 1) c q (leak name priority flags s ps)
unfolding new_process
leak-IsLeaked name priority flags k s c q ps at is = record {
  taken = λ j lt. elim (Bool-cases (s == j)) [
    | inl same ↦ ground (arith, same)
    | inr other ↦
        (let kept : is_free (ps.table j) ≡ false = elim (dec_lt j k) [
          | yes low ↦ is.taken j low
          | no high ↦ elim (dec_lt j s) [
            | yes passed ↦ at.taken j (omega arith) passed
            | no behind ↦
                let below : s < k = ground (arith, other, behind, lt) in
                cc (is.taken s below, at.free)
          ]
        ] in
          ground (arith, other, kept))
  ];
  scheduled = leak-IsScheduled name priority flags s c q ps at.free is.scheduled;
}

-- What one call returns.
create-none :
    (name : List ℕ) (entry priority flags : ℕ) (ps : Processes) (h : Heap) (t : Console)
    → find_free_process ps ≡ none
    → process_create name entry priority flags ps h t ≡ some (none, ps, h, t)
unfolding process_create
create-none name entry priority flags ps h t e = rw (process_create, e) refl

create-leak :
    (name : List ℕ) (entry priority flags s : ℕ) (ps : Processes) (h : Heap) (t : Console)
    → find_free_process ps ≡ some s
    → IsFull (heap_init h)
    → process_create name entry priority flags ps h t
      ≡ some (none, leak name priority flags s ps, heap_init h, refusal t)
unfolding process_create
create-leak name entry priority flags s ps h t e is = rw (process_create, e, no_stack h t is) refl

record IsFailed (n k c : ℕ) (q : List ℕ) (out : Option (Processes × Heap × Console)) : Type 0 where
  after : Processes
  heap : Heap
  screen : Console
  returned : out ≡ some (after, heap, screen)
  leaked : IsLeaked (k + n) c q after

IsFailed-suc :
    (n k c : ℕ) (q : List ℕ) {out out' : Option (Processes × Heap × Console)}
    → out ≡ out'
    → IsFailed n (k + 1) c q out'
    → IsFailed (suc n) k c q out
IsFailed-suc n k c q e r = record {
  after = r.after;
  heap = r.heap;
  screen = r.screen;
  returned = e ∙ r.returned;
  leaked = subst (λ (x : ℕ). IsLeaked x c q r.after) (omega arith) r.leaked;
}

failures-IsFailed :
    (n : ℕ) (name : List ℕ) (entry priority flags k c : ℕ) (q : List ℕ) (ps : Processes) (h : Heap)
    (t : Console)
    → k + n ≤ 256
    → IsFull (heap_init h)
    → IsLeaked k c q ps
    → IsFailed n k c q (failures n name entry priority flags ps h t)
unfolding failures
failures-IsFailed zero name entry priority flags k c q ps h t le full is = record {
  after = ps;
  heap = h;
  screen = t;
  returned = refl;
  leaked = subst (λ (x : ℕ). IsLeaked x c q ps) (omega arith) is;
}
failures-IsFailed (suc n) name entry priority flags k c q ps h t le full is =
    elim (Option-cases (find_free_process ps)) [
      | inl e ↦
          let all = find_free_slot-none 256 0 ps.table (unfold find_free_process in e) in
          let is' : IsLeaked (k + 1) c q ps = record {
            taken = λ j lt. all j (omega arith) (omega (arith, lt, le));
            scheduled = is.scheduled;
          } in
          IsFailed-suc n k c q (rw (failures, create-none name entry priority flags ps h t e) refl)
            (failures-IsFailed n name entry priority flags (k + 1) c q ps h t (omega (arith, le))
              full is')
      | inr (s, e) ↦
          let at = find_free_slot-some 256 0 256 s ps.table refl (unfold find_free_process in e) in
          let ps' = leak name priority flags s ps in
          IsFailed-suc n k c q
            (rw (failures, create-leak name entry priority flags s ps h t e full) refl)
            (failures-IsFailed n name entry priority flags (k + 1) c q ps' (heap_init h) (refusal t)
              (omega (arith, le)) (IsFull-again h full)
              (leak-IsLeaked name priority flags k s c q ps at is))
    ]

-- The calls return `NULL`, the scheduler is as it was, and no process can be created any more,
-- whatever the heap.
pub record IsExhausted (c : ℕ) (q : List ℕ) (out : Option (Processes × Heap × Console))
    : Type 0 where
  pub after : Processes
  pub heap : Heap
  pub screen : Console
  pub returned : out ≡ some (after, heap, screen)
  pub scheduled : IsScheduled after c q
  pub refuses :
      (name : List ℕ) (entry priority flags : ℕ) (h : Heap) (t : Console)
      → process_create name entry priority flags after h t ≡ some (none, after, h, t)

-- On a well-formed scheduler and a well-formed heap in which no free chunk holds a stack, 256 calls
-- of process_create all return `NULL`. The same process runs and the same ones are in the ready
-- queue, but every slot is taken: from then on process_create returns `NULL` for any heap, also one
-- with room.
pub process_create_loses_slots :
    (name : List ℕ) (entry priority flags c : ℕ) (q : List ℕ) (ps : Processes) (h : Heap)
    (t : Console)
    → IsScheduled ps c q
    → IsFull (heap_init h)
    → IsExhausted c q (failures 256 name entry priority flags ps h t)
process_create_loses_slots name entry priority flags c q ps h t is full =
    let start : IsLeaked 0 c q ps = record {
      taken = λ j lt. absurd (omega (arith, lt));
      scheduled = is;
    } in
    let r = failures-IsFailed 256 name entry priority flags 0 c q ps h t (omega arith) full start in
    let none_free : find_free_process r.after ≡ none =
      unfold find_free_process in
      taken-none 256 0 r.after.table (λ j ge lt. r.leaked.taken j (omega (arith, lt))) in
    record {
      after = r.after;
      heap = r.heap;
      screen = r.screen;
      returned = r.returned;
      scheduled = r.leaked.scheduled;
      refuses = λ name entry priority flags h t.
          create-none name entry priority flags r.after h t none_free;
    }
