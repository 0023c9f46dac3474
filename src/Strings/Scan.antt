-- ===== src/Strings/Scan.antt =====
-- The functions of string.c that walk along C strings, against functions on lists.
use native.Mathlib.Decide.{ℕ_discrete}
use zer0s.Prelude.{
  ℕ, zero, suc, ◌+◌, ◌-◌, ◌^◌, ◌<◌, ◌≡◌, ◌≢◌, ◌⊎◌, ◌↔◌, inl, inr, refl, ap, ap₂, sym, ◌∙◌, arith,
  true, false, Option, none, some, List, [], ◌∷◌, length, leb, ◌==◌, if◌then◌else◌, Bool-cases,
  store, u8,
}
use zer0s.Strings.{
  Memory, byte_difference, memcpy, strlen_from, strlen, strcpy_loop, strcpy, strcmp_loop, strcmp,
  strchr_loop, strchr, string_fuel,
}
use zer0s.Strings.Stored.{StoredString, StoredString-frame}
use zer0s.Strings.Copy.{moved, memmove_lem, memcpy-memmove}

strlen_from_lem :
    (fuel len p : ℕ) (s : List ℕ) (m : Memory)
    → StoredString m (p + len) s
    → length s < fuel
    → strlen_from fuel len p m ≡ some (len + length s)
unfolding strlen_from StoredString
strlen_from_lem zero len p s m at enough = absurd (omega arith)
strlen_from_lem (suc fuel) len p [] m at enough = ground (arith, at)
strlen_from_lem (suc fuel) len p (c ∷ s) m (here, ne, there) enough =
    let next : p + len + 1 ≡ p + (len + 1) = omega arith in
    let rest = strlen_from_lem fuel (len + 1) p s m (rw (← next) there) (omega arith) in
    ground (arith, here, ne, rest)

-- `strlen` returns the length of a string.
pub strlen-length :
    (p : ℕ) (s : List ℕ) (m : Memory)
    → StoredString m p s
    → length s < 2 ^ 64
    → strlen p m ≡ some (length s)
unfolding strlen
strlen-length p s m at lt =
    let start : p ≡ p + 0 = omega arith in
    strlen_from_lem string_fuel 0 p s m (rw (← start) at) (omega arith) ∙ ap some (omega arith)

-- A list against another as C compares strings: the difference of the first bytes that differ,
-- where the end counts as 0.
unfoldable pub compare_bytes : List ℕ → List ℕ → ℕ
compare_bytes [] [] = 0
compare_bytes [] (d ∷ t) = byte_difference 0 d
compare_bytes (c ∷ s) [] = byte_difference c 0
compare_bytes (c ∷ s) (d ∷ t) =
    let rest = compare_bytes s t in if c == d then rest else byte_difference c d

strcmp_loop_lem :
    (fuel a b : ℕ) (s t : List ℕ) (m : Memory)
    → StoredString m a s
    → StoredString m b t
    → length s < fuel
    → strcmp_loop fuel a b m ≡ some (compare_bytes s t)
unfolding strcmp_loop StoredString compare_bytes
strcmp_loop_lem zero a b s t m first second enough = absurd (omega arith)
strcmp_loop_lem (suc fuel) a b [] [] m first second enough = ground arith
strcmp_loop_lem (suc fuel) a b [] (d ∷ t) m first (here, ne, there) enough = ground arith
strcmp_loop_lem (suc fuel) a b (c ∷ s) [] m (here, ne, there) second enough = ground arith
strcmp_loop_lem (suc fuel) a b (c ∷ s) (d ∷ t) m (here, ne, there) (here', ne', there') enough =
    let rest = strcmp_loop_lem fuel (a + 1) (b + 1) s t m there there' (omega arith) in
    ground (arith, here, ne, here', ne', rest)

abbrev pub AllBytes : List ℕ → Type 0
AllBytes [] = Unit
AllBytes (c ∷ s) = (c ≢ 0) × (c < 256) × AllBytes s

pub compare_bytes-zero : (s t : List ℕ) → AllBytes s → AllBytes t → compare_bytes s t ≡ 0 → s ≡ t
unfolding compare_bytes
compare_bytes-zero [] [] fs ft e = refl
compare_bytes-zero [] (d ∷ t) fs (ne, lt, ft) e = absurd (omega (arith, e, ne))
compare_bytes-zero (c ∷ s) [] (ne, lt, fs) ft e = absurd (omega (arith, e, ne))
compare_bytes-zero (c ∷ s) (d ∷ t) (ne, lt, fs) (ne', lt', ft) e = elim (ℕ_discrete c d) [
  | yes same ↦
      let rest : compare_bytes s t ≡ 0 = ground arith in
      ap₂ (λ (x : ℕ) y. x ∷ y) same (compare_bytes-zero s t fs ft rest)
  | no differ ↦
      let bd : byte_difference c d ≡ 0 = ground arith in absurd (omega (arith, bd, differ))
]

pub compare_bytes-same : (s : List ℕ) → compare_bytes s s ≡ 0
unfolding compare_bytes
compare_bytes-same [] = refl
compare_bytes-same (c ∷ s) = ground (arith, compare_bytes-same s)

AllBytes-stored :
    (m : Memory) (p : ℕ) (s : List ℕ) → ((q : ℕ) → m q < 256) → StoredString m p s → AllBytes s
unfolding StoredString
AllBytes-stored m p [] fits at = tt
AllBytes-stored m p (c ∷ s) fits (here, ne, there) =
    (ne, rw (← here) (fits p), AllBytes-stored m (p + 1) s fits there)

-- On a memory of bytes `strcmp` of two strings, the first shorter than 2 ^ 64, ends with the
-- difference of the first bytes that differ, and that is 0 for equal strings only.
pub strcmp-compare_bytes :
    (s1 s2 : ℕ) (s t : List ℕ) (m : Memory)
    → ((q : ℕ) → m q < 256)
    → StoredString m s1 s
    → StoredString m s2 t
    → length s < 2 ^ 64
    → (strcmp s1 s2 m ≡ some (compare_bytes s t)) × ((compare_bytes s t ≡ 0) ↔ (s ≡ t))
unfolding strcmp
strcmp-compare_bytes s1 s2 s t m fits first second lt = (
  strcmp_loop_lem string_fuel s1 s2 s t m first second (omega arith),
  (
    compare_bytes-zero s t (AllBytes-stored m s1 s fits first) (AllBytes-stored m s2 t fits second),
    λ e. rw (← e) (compare_bytes-same s),
  ),
)

-- The first position of a byte in a list.
unfoldable pub position : ℕ → List ℕ → Option ℕ
position c [] = none
position c (d ∷ s) = elim (d == c) [
  | true ↦ some 0
  | false ↦ elim (position c s) [ none ↦ none | some i ↦ some (suc i) ]
]

-- The pointer to that position of the string at `p`, or `NULL`.
abbrev pub pointer_to : ℕ → Option ℕ → ℕ
pointer_to p none = 0
pointer_to p (some i) = p + i

strchr_loop_lem :
    (fuel p c : ℕ) (s : List ℕ) (m : Memory)
    → StoredString m p s
    → length s < fuel
    → strchr_loop fuel p c m ≡ some (pointer_to p (position (u8 c) s))
unfolding strchr_loop StoredString position
strchr_loop_lem zero p c s m at enough = absurd (omega arith)
strchr_loop_lem (suc fuel) p c [] m at enough = ground arith
strchr_loop_lem (suc fuel) p c (d ∷ s) m (here, ne, there) enough =
    let rest = strchr_loop_lem fuel (p + 1) c s m there (omega arith) in
    ground (arith, here, ne, rest)

-- `strchr` returns the address of the first byte equal to its argument's low byte, or `NULL` where
-- there is none.
pub strchr-position :
    (p c : ℕ) (s : List ℕ) (m : Memory)
    → StoredString m p s
    → length s < 2 ^ 64
    → strchr p c m ≡ some (pointer_to p (position (u8 c) s))
unfolding strchr
strchr-position p c s m at lt = strchr_loop_lem string_fuel p c s m at (omega arith)

-- The loop of `strcpy` has ended with the bytes moved.
record Copied (fuel d src n : ℕ) (m : Memory) : Type 0 where
  pub after : Memory
  pub returned : strcpy_loop fuel d src m ≡ some after
  pub cells : (j : ℕ) → after j ≡ moved d src n m j

moved-cons :
    (d src n : ℕ) (m : Memory) (j : ℕ)
    → (d + n < src) ⊎ (src + n < d)
    → moved (d + 1) (src + 1) n (store m d (m src)) j ≡ moved d src (suc n) m j
moved-cons d src n m j apart = elim (ℕ_discrete j d) [
  | yes e ↦ let index : src + (j - d) ≡ src = omega arith in ground (arith, ap m index)
  | no ne ↦ elim (Bool-cases (leb (d + 1) j)) [
    | inl lt ↦
        let index : src + 1 + (j - (d + 1)) ≡ src + (j - d) = ground arith in
        ground (arith, ap m index)
    | inr ge ↦ ground arith
  ]
]

moved_one : (d src : ℕ) (m : Memory) (j : ℕ) → store m d (m src) j ≡ moved d src 1 m j
moved_one d src m j = elim (ℕ_discrete j d) [
  | yes e ↦ let index : src + (j - d) ≡ src = omega arith in ground (arith, ap m index)
  | no ne ↦ ground arith
]

strcpy_loop-Copied :
    (fuel d src : ℕ) (s : List ℕ) (m : Memory)
    → StoredString m src s
    → (d + length s < src) ⊎ (src + length s < d)
    → length s < fuel
    → Copied fuel d src (suc (length s)) m
unfolding strcpy_loop StoredString
strcpy_loop-Copied zero d src s m at apart enough = absurd (omega arith)
strcpy_loop-Copied (suc fuel) d src [] m at apart enough = record {
  after = store m d (m src);
  returned = ground (arith, at);
  cells = λ j. moved_one d src m j;
}
strcpy_loop-Copied (suc fuel) d src (c ∷ s) m (here, ne, there) apart enough =
    let there' =
      StoredString-frame m (store m d (m src)) (src + 1) s (λ j lo hi. ground arith) there in
    let rest =
      strcpy_loop-Copied fuel (d + 1) (src + 1) s (store m d (m src)) there' (ground arith)
        (omega arith) in
    record {
      after = rest.after;
      returned = ground (arith, here, ne, rest.returned);
      cells = λ j. rest.cells j ∙ moved-cons d src (suc (length s)) m j (ground arith);
    }

-- `strcpy` of a string to an area that does not overlap it ends, and has copied the string and its
-- NUL as `memcpy` does, and nothing else.
pub strcpy-memcpy :
    (dest src : ℕ) (s : List ℕ) (m : Memory)
    → StoredString m src s
    → (dest + length s < src) ⊎ (src + length s < dest)
    → length s < 2 ^ 64
    → (after : Memory) × (strcpy dest src m ≡ some after)
      × ((j : ℕ) → after j ≡ memcpy dest src (suc (length s)) m j)
unfolding strcpy
strcpy-memcpy dest src s m at apart lt =
    let copy = strcpy_loop-Copied string_fuel dest src s m at apart (omega arith) in
    (
      copy.after,
      copy.returned,
      λ j.
          copy.cells j
          ∙ sym (memmove_lem dest src (suc (length s)) m j)
          ∙ sym (memcpy-memmove dest src (suc (length s)) m (ground arith) j),
    )
