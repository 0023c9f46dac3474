-- ===== src/Strings.antt =====
-- The string library of kernel/arch/x86_64/string.c, on a memory of bytes. Addresses do not wrap:
-- C promises nothing about areas that run past the last one. A result `none` is a loop that has not
-- ended within the fuel, which is the size of the address space.
pub mod Stored
pub mod Copy
pub mod Scan
pub mod Search
mod Tests
use zer0s.Prelude.{
  ℕ, zero, suc, ◌+◌, ◌-◌, ◌^◌, Bool, true, false, ◌&&◌, ◌||◌, not, Option, none, some, ltb, ◌==◌,
  if◌then◌else◌, store, for_rounds, u8, u32,
}

abbrev pub Memory : Type 0
Memory = ℕ → ℕ

-- The difference of two bytes as an `int`.
abbrev pub byte_difference : ℕ → ℕ → ℕ
byte_difference a b = u32 (a + 2 ^ 32 - b)

-- The functions that only write return their first argument in C; here they return the memory.
unfoldable pub memset : (s c n : ℕ) → Memory → Memory
memset s c n = for_rounds (λ i m. store m (s + i) (u8 c)) n 0

-- `while (n--) *d++ = *s++;`
unfoldable pub copy_up : (d s n : ℕ) → Memory → Memory
copy_up d s n = for_rounds (λ i m. store m (d + i) (m (s + i))) n 0

-- `while (n--) *--d = *--s;` from the ends of the areas.
unfoldable pub copy_down : (d s n : ℕ) → Memory → Memory
copy_down d s zero m = m
copy_down d s (suc n) m = copy_down d s n (store m (d + n) (m (s + n)))

unfoldable pub memcpy : (dest src n : ℕ) → Memory → Memory
unfolding copy_up
memcpy dest src n m = copy_up dest src n m

unfoldable pub memmove : (dest src n : ℕ) → Memory → Memory
unfolding copy_up copy_down
memmove dest src n m = if ltb dest src then copy_up dest src n m else copy_down dest src n m

-- The loop from index `i` on, with `left` rounds to go.
unfoldable pub memcmp_from : (left i a b : ℕ) → Memory → ℕ
memcmp_from zero i a b m = 0
memcmp_from (suc left) i a b m =
    let rest = memcmp_from left (i + 1) a b m in
    if m (a + i) == m (b + i) then rest else byte_difference (m (a + i)) (m (b + i))

unfoldable pub memcmp : (s1 s2 n : ℕ) → Memory → ℕ
unfolding memcmp_from
memcmp s1 s2 n m = memcmp_from n 0 s1 s2 m

abbrev pub string_fuel : ℕ
string_fuel = 2 ^ 64

unfoldable pub strlen_from : (fuel len s : ℕ) → Memory → Option ℕ
strlen_from zero len s m = none
strlen_from (suc fuel) len s m = elim (m (s + len) == 0) [
  | true ↦ some len
  | false ↦ strlen_from fuel (len + 1) s m
]

unfoldable pub strlen : ℕ → Memory → Option ℕ
unfolding strlen_from
strlen s m = strlen_from string_fuel 0 s m

unfoldable pub strcpy_loop : (fuel d src : ℕ) → Memory → Option Memory
strcpy_loop zero d src m = none
strcpy_loop (suc fuel) d src m = elim (m src == 0) [
  | true ↦ some (store m d (m src))
  | false ↦ strcpy_loop fuel (d + 1) (src + 1) (store m d (m src))
]

unfoldable pub strcpy : (dest src : ℕ) → Memory → Option Memory
unfolding strcpy_loop
strcpy dest src m = strcpy_loop string_fuel dest src m

-- Both loops of `strncpy`, with `left` rounds to go; the flag says that the second one runs.
unfoldable pub strncpy_from : (left i : ℕ) → Bool → (d src : ℕ) → Memory → Memory
strncpy_from zero i padding d src m = m
strncpy_from (suc left) i padding d src m = elim (padding || (m (src + i) == 0)) [
  | true ↦ strncpy_from left (i + 1) true d src (store m (d + i) 0)
  | false ↦ strncpy_from left (i + 1) false d src (store m (d + i) (m (src + i)))
]

unfoldable pub strncpy : (dest src n : ℕ) → Memory → Memory
unfolding strncpy_from
strncpy dest src n m = strncpy_from n 0 false dest src m

unfoldable pub strcmp_loop : (fuel s1 s2 : ℕ) → Memory → Option ℕ
strcmp_loop zero s1 s2 m = none
strcmp_loop (suc fuel) s1 s2 m = elim (not (m s1 == 0) && (m s1 == m s2)) [
  | true ↦ strcmp_loop fuel (s1 + 1) (s2 + 1) m
  | false ↦ some (byte_difference (m s1) (m s2))
]

unfoldable pub strcmp : (s1 s2 : ℕ) → Memory → Option ℕ
unfolding strcmp_loop
strcmp s1 s2 m = strcmp_loop string_fuel s1 s2 m

unfoldable pub strncmp_from : (left i s1 s2 : ℕ) → Memory → ℕ
strncmp_from zero i s1 s2 m = 0
strncmp_from (suc left) i s1 s2 m =
    let rest = strncmp_from left (i + 1) s1 s2 m in
    if not (m (s1 + i) == m (s2 + i)) || (m (s1 + i) == 0)
    then byte_difference (m (s1 + i)) (m (s2 + i))
    else rest

unfoldable pub strncmp : (s1 s2 n : ℕ) → Memory → ℕ
unfolding strncmp_from
strncmp s1 s2 n m = strncmp_from n 0 s1 s2 m

-- The address of the first byte equal to `(char)c`, or `NULL`, which is 0.
unfoldable pub strchr_loop : (fuel s c : ℕ) → Memory → Option ℕ
strchr_loop zero s c m = none
strchr_loop (suc fuel) s c m = elim (m s == 0) [
  | true ↦ some 0
  | false ↦ elim (m s == u8 c) [ true ↦ some s | false ↦ strchr_loop fuel (s + 1) c m ]
]

unfoldable pub strchr : (s c : ℕ) → Memory → Option ℕ
unfolding strchr_loop
strchr s c m = strchr_loop string_fuel s c m

-- The inner loop of `strstr`: whether it has reached the end of the needle.
unfoldable pub matches : (fuel h n : ℕ) → Memory → Option Bool
matches zero h n m = none
matches (suc fuel) h n m = elim (not (m h == 0) && not (m n == 0) && (m h == m n)) [
  | true ↦ matches fuel (h + 1) (n + 1) m
  | false ↦ some (m n == 0)
]

-- The outer loop of `strstr`; the inner one has fuel of its own.
unfoldable pub strstr_loop : (inner fuel haystack needle : ℕ) → Memory → Option ℕ
unfolding matches
strstr_loop inner zero haystack needle m = none
strstr_loop inner (suc fuel) haystack needle m = elim (m haystack == 0) [
  | true ↦ some 0
  | false ↦ elim (m haystack == m needle) [
    | false ↦ strstr_loop inner fuel (haystack + 1) needle m
    | true ↦ elim (matches inner haystack needle m) [
      | none ↦ none
      | some true ↦ some haystack
      | some false ↦ strstr_loop inner fuel (haystack + 1) needle m
    ]
  ]
]

unfoldable pub strstr : (haystack needle : ℕ) → Memory → Option ℕ
unfolding strstr_loop
strstr haystack needle m =
    if m needle == 0 then some haystack else strstr_loop string_fuel string_fuel haystack needle m
