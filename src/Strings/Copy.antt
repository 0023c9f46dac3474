-- ===== src/Strings/Copy.antt =====
-- The block functions of string.c: what they leave in each byte of memory.
use native.Mathlib.Decide.{ℕ_discrete}
use zer0s.Prelude.{
  ℕ, zero, suc, ◌+◌, ◌-◌, ◌≤◌, ◌<◌, ◌≡◌, ◌≢◌, ◌⊎◌, inl, inr, refl, ap, sym, ◌∙◌, arith, ◌&&◌, ltb,
  leb, ◌==◌, if◌then◌else◌, Bool-cases, store, for_rounds_inv,
}
use zer0s.Strings.{
  Memory, byte_difference, copy_up, copy_down, memcpy, memmove, memcmp_from, memcmp,
}

-- The memory in which the `n` bytes that stood at `s` in `m` stand at `d`, all others as in `m`.
abbrev pub moved : (d s n : ℕ) → Memory → Memory
moved d s n m j = if leb d j && ltb j (d + n) then m (s + (j - d)) else m j

moved-snoc :
    (d s n : ℕ) (m : Memory) (j : ℕ)
    → moved d s (n + 1) m j ≡ (if d + n == j then m (s + n) else moved d s n m j)
moved-snoc d s n m j = elim (ℕ_discrete (d + n) j) [
  | yes e ↦ let index : s + (j - d) ≡ s + n = omega arith in ground (arith, ap m index)
  | no ne ↦ ground arith
]

copy_up-moved :
    (d s n : ℕ) (m : Memory)
    → (d ≤ s) ⊎ (d + n ≤ s) ⊎ (s + n ≤ d)
    → (j : ℕ) → copy_up d s n m j ≡ moved d s n m j
unfolding copy_up
copy_up-moved d s n m apart =
    for_rounds_inv (λ i m. store m (d + i) (m (s + i)))
      (λ i (t : Memory). i ≤ n → (j : ℕ) → t j ≡ moved d s i m j)
      (λ i t h le j.
        let source : moved d s i m (s + i) ≡ m (s + i) = ground arith in
        ground (arith, moved-snoc d s i m j, h (omega arith) (s + i), h (omega arith) j, source))
      n 0 n (omega arith) m (λ le j. ground arith) (omega arith)

copy_down-moved : (d s n : ℕ) (m : Memory) → s ≤ d → (j : ℕ) → copy_down d s n m j ≡ moved d s n m j
unfolding copy_down
copy_down-moved d s zero m le j = ground arith
copy_down-moved d s (suc n) m le j =
    let rest = copy_down-moved d s n (store m (d + n) (m (s + n))) le j in
    let next : n + 1 ≡ suc n = omega arith in
    rw (← next) (ground (arith, rest, moved-snoc d s n m j))

-- `memmove` moves the bytes as if through a buffer, also where the areas overlap.
pub memmove_lem :
    (dest src n : ℕ) (m : Memory) (j : ℕ) → memmove dest src n m j ≡ moved dest src n m j
unfolding memmove
memmove_lem dest src n m j = elim (Bool-cases (ltb dest src)) [
  | inl lt ↦ rw lt (copy_up-moved dest src n m (inl (ground arith)) j)
  | inr ge ↦ rw ge (copy_down-moved dest src n m (ground arith) j)
]

-- `memcpy` does the same as `memmove` when the areas do not overlap.
pub memcpy-memmove :
    (dest src n : ℕ) (m : Memory)
    → (dest + n ≤ src) ⊎ (src + n ≤ dest)
    → (j : ℕ) → memcpy dest src n m j ≡ memmove dest src n m j
unfolding memcpy
memcpy-memmove dest src n m apart j =
    copy_up-moved dest src n m (inr apart) j ∙ sym (memmove_lem dest src n m j)

-- The first index below `n` at which the areas differ, and the difference of the bytes there.
pub record FirstDifference (a b n : ℕ) (m : Memory) (r : ℕ) : Type 0 where
  pub index : ℕ
  pub below : index < n
  pub same : (k : ℕ) → k < index → m (a + k) ≡ m (b + k)
  pub differ : m (a + index) ≢ m (b + index)
  pub result : r ≡ byte_difference (m (a + index)) (m (b + index))

memcmp_from_lem :
    (left i n a b : ℕ) (m : Memory)
    → i + left ≡ n
    → ((k : ℕ) → k < i → m (a + k) ≡ m (b + k))
    → ((memcmp_from left i a b m ≡ 0) × ((k : ℕ) → k < n → m (a + k) ≡ m (b + k)))
      ⊎ FirstDifference a b n m (memcmp_from left i a b m)
unfolding memcmp_from
memcmp_from_lem zero i n a b m e same = inl (refl, λ k lt. same k (omega arith))
memcmp_from_lem (suc left) i n a b m e same = elim (Bool-cases (m (a + i) == m (b + i))) [
  | inr ne ↦ rw ne (
      inr (record {
        index = i;
        below = omega arith;
        same = same;
        differ = ground arith;
        result = refl;
      }))
  | inl eq ↦ rw eq (
      memcmp_from_lem left (i + 1) n a b m (omega arith) (λ k lt. elim (ℕ_discrete k i) [
        | yes here ↦ rw here (ground arith)
        | no ne ↦ same k (omega arith)
      ]))
]

-- On a memory of bytes `memcmp` is 0 on equal areas, and else not 0 but the difference of the first
-- bytes that differ.
pub memcmp_lem :
    (s1 s2 n : ℕ) (m : Memory)
    → ((p : ℕ) → m p < 256)
    → ((memcmp s1 s2 n m ≡ 0) × ((k : ℕ) → k < n → m (s1 + k) ≡ m (s2 + k)))
      ⊎ ((memcmp s1 s2 n m ≢ 0) × FirstDifference s1 s2 n m (memcmp s1 s2 n m))
unfolding memcmp
memcmp_lem s1 s2 n m fits =
    elim (memcmp_from_lem n 0 n s1 s2 m (omega arith) (λ k lt. absurd (omega arith))) [
      | inl same ↦ inl same
      | inr first ↦ inr (
        (let a = fits (s1 + first.index) in
            let b = fits (s2 + first.index) in omega (arith, first.result, first.differ)),
        first,
      )
    ]
