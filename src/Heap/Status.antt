-- ===== src/Heap/Status.antt =====
-- What `heap_status` reports of a well-formed heap.
use zer0s.Prelude.{
  ℕ, zero, suc, ◌+◌, ◌*◌, ◌^◌, ◌≤◌, ◌<◌, ◌≡◌, refl, ap, arith, Bool-cases, inl, inr, some, List, [],
  ◌∷◌, length, ◌==◌, if◌then◌else◌, u32, u64,
}
use zer0s.Console.{Console, print}
use zer0s.Heap.{Block, Heap, heap_start, heap_fuel, heap_totals, heap_report, heap_status}
use zer0s.Heap.Chunks.{Chunk, extent, spans}
use zer0s.Heap.Chain.{Chain, Chain-extent}
use zer0s.Heap.Live.{IsHeap, heap_end}

-- The bytes of the payloads in a list.
unfoldable pub bytes_in : List (ℕ × ℕ) → ℕ
bytes_in [] = 0
bytes_in ((p, z) ∷ ps) = z + bytes_in ps

payloads : List Chunk → ℕ
payloads [] = 0
payloads ((z, u) ∷ xs) = z + payloads xs

free_bytes : List Chunk → ℕ
free_bytes [] = 0
free_bytes ((z, u) ∷ xs) = if u == 0 then z + free_bytes xs else free_bytes xs

extent-payloads : (xs : List Chunk) → extent xs ≡ 24 * length xs + payloads xs
unfolding extent payloads
extent-payloads [] = omega arith
extent-payloads ((z, u) ∷ xs) = omega (arith, extent-payloads xs)

payloads-free_bytes :
    (a : ℕ) (xs : List Chunk) → payloads xs ≡ free_bytes xs + bytes_in (spans a xs)
unfolding payloads free_bytes bytes_in spans
payloads-free_bytes a [] = omega arith
payloads-free_bytes a ((z, u) ∷ xs) = ground (arith, payloads-free_bytes (a + 24 + z) xs)

heap_totals_lem :
    (fuel p a e : ℕ) (m : ℕ → Block) (xs : List Chunk) (blocks total free_mem : ℕ)
    → 0 < a
    → length xs < fuel
    → Chain m p a e xs
    → blocks + length xs < 2 ^ 32
    → total + payloads xs < 2 ^ 64
    → free_mem ≤ total
    → heap_totals fuel p m blocks total free_mem
      ≡ some (blocks + length xs, total + payloads xs, free_mem + free_bytes xs)
unfolding heap_totals payloads free_bytes
heap_totals_lem zero p a e m xs blocks total free_mem pos lt c fb ft le = absurd (omega arith)
heap_totals_lem (suc fuel) p a e m [] blocks total free_mem pos lt c fb ft le = ground arith
heap_totals_lem (suc fuel) p a e m ((z, u) ∷ xs) blocks total free_mem pos lt c fb ft le =
    let blocks' : u32 (blocks + 1) ≡ blocks + 1 = omega arith in
    let total' : u64 (total + z) ≡ total + z = omega arith in
    let free' : u64 (free_mem + z) ≡ free_mem + z = omega arith in
    let counted : blocks + 1 + length xs ≡ blocks + suc (length xs) = omega arith in
    let summed : total + z + payloads xs ≡ total + (z + payloads xs) = omega arith in
    let rest = λ (f : ℕ) (le' : f ≤ total + z).
      heap_totals_lem fuel (m a).next (a + 24 + z) e m xs (blocks + 1) (total + z) f (omega arith)
        (omega arith) c.3 (omega arith) (omega arith) le' in
    elim (Bool-cases (u == 0)) [
      | inl free ↦
          let sum : free_mem + z + free_bytes xs ≡ free_mem + (z + free_bytes xs) = omega arith in
          ground (arith, c.0, c.1, c.2, rest (free_mem + z) (omega arith))
      | inr busy ↦ ground (arith, c.0, c.1, c.2, rest free_mem (omega arith))
    ]

heap_status-heap_totals :
    (h : Heap) (t : Console) {b n f : ℕ} {b' n' f' : ℕ}
    → heap_totals heap_fuel h.head h.blocks 0 0 0 ≡ some (b', n', f')
    → b' ≡ b
    → n' ≡ n
    → f' ≡ f
    → heap_status h t ≡ some (print (heap_report b n f) t)
unfolding heap_status
heap_status-heap_totals h t e eb en ef = rw (heap_status, e, eb, en, ef) refl

-- `heap_status` reported these figures.
pub record Reported (h : Heap) (live : List (ℕ × ℕ)) (t : Console) : Type 0 where
  pub blocks : ℕ
  pub free_mem : ℕ
  pub returned :
      heap_status h t ≡ some (print (heap_report blocks (free_mem + bytes_in live) free_mem) t)
  pub conserved : free_mem + bytes_in live + 24 * blocks ≡ 0x800000 + 24

-- On a well-formed heap `heap_status` returns. Its total is the free bytes that it reports and the
-- bytes of the payloads in use, and these with 24 bytes for each of its blocks make up the heap.
pub heap_status-Reported :
    {h : Heap} {live : List (ℕ × ℕ)} (t : Console) → IsHeap h live → Reported h live t
heap_status-Reported {h} {live} t is =
    let xs = is.chunks in
    let size = Chain-extent h.blocks heap_start heap_start heap_end xs is.chain in
    let parts = extent-payloads xs in
    let shares = payloads-free_bytes heap_start xs in
    let live_bytes : bytes_in (spans heap_start xs) ≡ bytes_in live = ap bytes_in is.used in
    let totals =
      heap_totals_lem heap_fuel h.head heap_start heap_end h.blocks xs 0 0 0 (omega arith)
        (omega arith) (rw is.head is.chain) (omega arith) (omega arith) (omega arith) in
    let total : 0 + payloads xs ≡ free_bytes xs + bytes_in live = omega arith in
    record {
      blocks = length xs;
      free_mem = free_bytes xs;
      returned = heap_status-heap_totals h t totals (omega arith) total (omega arith);
      conserved = omega arith;
    }
