-- ===== src/Heap.antt =====
-- The heap of kernel/arch/x86_64/memory.c: a list of blocks, each behind its header in memory.
pub mod Chunks
pub mod Chain
pub mod Take
pub mod Release
pub mod Live
pub mod Alloc
pub mod Listed
pub mod Wraps
pub mod Apart
pub mod Samples
pub mod Status
mod Tests
pub mod Spans
use zer0s.Prelude.{
  ℕ, zero, suc, ◌+◌, ◌-◌, ◌*◌, ◌/◌, ◌%◌, ◌^◌, Bool, true, false, ◌&&◌, Option, none, some, List, [],
  ◌∷◌, ltb, leb, ◌==◌, if◌then◌else◌, not, store, for_rounds, u64, u32, bytes,
}
use zer0s.Console.{Console, terminal_writestring, Item, text, number, print}

-- `heap_block_t`; `used` is an `int`, and `next` an address or 0.
pub record Block : Type 0 where
  pub size : ℕ
  pub used : ℕ
  pub next : ℕ

-- `heap_head`, and the headers in memory by their addresses. The bytes between the headers belong
-- to the callers, who are taken to stay within them.
pub record Heap : Type 0 where
  pub head : ℕ
  pub blocks : ℕ → Block

abbrev pub heap_start : ℕ
heap_start = 0x2000000

abbrev pub heap_size : ℕ
heap_size = 8 * 1024 * 1024

-- `sizeof(heap_block_t)`
abbrev pub header_size : ℕ
header_size = 24

abbrev pub heap_min_block : ℕ
heap_min_block = 32

-- `(size + 7) & ~7` in 64 bits.
unfoldable pub align8 : ℕ → ℕ
align8 size = u64 (size + 7) / 8 * 8

-- The outcome of the walk: a block that fits, the end of the list, or no end within the fuel.
pub data Walk : Type 0 where
  found : ℕ → Walk
  exhausted out_of_fuel : Walk

-- The loop of `kmalloc` up to the block that it takes.
unfoldable pub find_block : ℕ → ℕ → ℕ → (ℕ → Block) → Walk
find_block zero current size m = out_of_fuel
find_block (suc fuel) current size m =
    let rest = find_block fuel (m current).next size m in
    if current == 0
    then exhausted
    else if ((m current).used == 0) && leb size (m current).size
    then found current
    else rest

-- What `kmalloc` does to the block that it takes: split it if a block of the smallest size is
-- left over, and mark it. The subtraction runs only where it does not wrap.
unfoldable pub take_block : ℕ → ℕ → (ℕ → Block) → (ℕ → Block)
take_block current size m =
    let block = m current in
    let new_block = u64 (current + header_size + size) in
    if leb (u64 (size + header_size + heap_min_block)) block.size
    then store
        (store m new_block
          (record { size = block.size - size - header_size; used = 0; next = block.next }))
        current (record { size = size; used = 1; next = new_block })
    else store m current (record block { used = 1 })

unfoldable pub heap_init : Heap → Heap
heap_init h =
    if h.head == 0
    then record {
      head = heap_start;
      blocks = store h.blocks heap_start (record { size = heap_size; used = 0; next = 0 });
    }
    else h

-- More rounds than blocks fit into the heap.
abbrev pub heap_fuel : ℕ
heap_fuel = 0x80000

-- The pointer is first. `none` is a walk that does not end.
unfoldable pub kmalloc : ℕ → Heap → Console → Option (ℕ × Heap × Console)
kmalloc size h t =
    if size == 0
    then some (0, h, t)
    else (let start = heap_init h in
        elim (find_block heap_fuel start.head (align8 size) start.blocks) [
          | found current ↦ some (
            u64 (current + header_size),
            record start { blocks = take_block current (align8 size) start.blocks },
            t,
          )
          | exhausted ↦
              some
                (0, start, terminal_writestring (bytes "[ERROR] kmalloc: Out of heap memory!\n") t)
          | out_of_fuel ↦ none
        ])

-- `kfree` behind its test for `NULL`.
unfoldable pub free_block : ℕ → (ℕ → Block) → (ℕ → Block)
free_block block m =
    let freed = record (m block) { used = 0 } in
    let next = m freed.next in
    if not (freed.next == 0) && (next.used == 0)
    then store m block
        (record { size = u64 (freed.size + header_size + next.size); used = 0; next = next.next })
    else store m block freed

unfoldable pub kfree : ℕ → Heap → Heap
unfolding free_block
kfree ptr h =
    if ptr == 0
    then h
    else record h { blocks = free_block (u64 (ptr + 2 ^ 64 - header_size)) h.blocks }

-- The loop of `kcalloc` over the payload in memory.
unfoldable pub clear_bytes : ℕ → ℕ → (ℕ → ℕ) → (ℕ → ℕ)
clear_bytes ptr n = for_rounds (λ i ram. store ram (ptr + i) 0) n 0

unfoldable pub kcalloc : ℕ → ℕ → Heap → (ℕ → ℕ) → Console → Option (ℕ × Heap × (ℕ → ℕ) × Console)
kcalloc num size h ram t = elim (kmalloc (u64 (num * size)) h t) [
  | none ↦ none
  | some (ptr, h', t') ↦
      some (ptr, h', if ptr == 0 then ram else clear_bytes ptr (u64 (num * size)) ram, t')
]

-- The loop of `heap_status`: blocks, bytes and free bytes, counted on from the first three.
unfoldable pub heap_totals : ℕ → ℕ → (ℕ → Block) → ℕ → ℕ → ℕ → Option (ℕ × ℕ × ℕ)
heap_totals zero current m blocks total free_mem = none
heap_totals (suc fuel) current m blocks total free_mem =
    let block = m current in
    let rest =
      heap_totals fuel block.next m (u32 (blocks + 1)) (u64 (total + block.size))
        (if block.used == 0 then u64 (free_mem + block.size) else free_mem) in
    if current == 0 then some (blocks, total, free_mem) else rest

-- The text of `heap_status`, whose first line it prints before it walks.
unfoldable pub heap_report : (blocks total free_mem : ℕ) → List Item
heap_report blocks total free_mem =
    text (bytes "\n=== Heap Status ===\n")
    ∷ text (bytes "Blocks: ")
    ∷ number blocks
    ∷ text (bytes "\nTotal: ")
    ∷ number (total / 1024)
    ∷ text (bytes " KB\nFree: ")
    ∷ number (free_mem / 1024)
    ∷ text (bytes " KB\n")
    ∷ text (bytes "==================\n")
    ∷ []

unfoldable pub heap_status : Heap → Console → Option Console
heap_status h t = elim (heap_totals heap_fuel h.head h.blocks 0 0 0) [
  | none ↦ none
  | some (blocks, total, free_mem) ↦ some (print (heap_report blocks total free_mem) t)
]
