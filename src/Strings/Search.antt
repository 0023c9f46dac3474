-- ===== src/Strings/Search.antt =====
-- `strstr` of string.c against the search for a sublist.
use zer0s.Prelude.{
  ℕ, zero, suc, ◌+◌, ◌^◌, ◌<◌, ◌≡◌, ◌≢◌, inl, inr, refl, ap, ◌∙◌, arith, Bool, true, false, ◌&&◌,
  Option, none, some, List, [], ◌∷◌, length, ◌==◌, if◌then◌else◌, Bool-cases,
}
use zer0s.Strings.{Memory, matches, strstr_loop, strstr, string_fuel}
use zer0s.Strings.Stored.{StoredString}
use zer0s.Strings.Scan.{pointer_to}

-- Whether the first list is a prefix of the second.
unfoldable pub starts_with : List ℕ → List ℕ → Bool
starts_with [] s = true
starts_with (c ∷ t) [] = false
starts_with (c ∷ t) (d ∷ s) = (d == c) && starts_with t s

-- The first position at which a list holds another.
unfoldable pub sublist_position : List ℕ → List ℕ → Option ℕ
unfolding starts_with
sublist_position t [] = if starts_with t [] then some 0 else none
sublist_position t (d ∷ s) = elim (starts_with t (d ∷ s)) [
  | true ↦ some 0
  | false ↦ elim (sublist_position t s) [ none ↦ none | some i ↦ some (suc i) ]
]

matches-starts_with :
    (fuel h n : ℕ) (s t : List ℕ) (m : Memory)
    → StoredString m h s
    → StoredString m n t
    → length t < fuel
    → matches fuel h n m ≡ some (starts_with t s)
unfolding matches starts_with StoredString
matches-starts_with zero h n s t m hay needle enough = absurd (omega arith)
matches-starts_with (suc fuel) h n [] [] m hay needle enough = ground arith
matches-starts_with (suc fuel) h n [] (c ∷ t) m hay (here, ne, there) enough = ground arith
matches-starts_with (suc fuel) h n (d ∷ s) [] m (here, ne, there) needle enough = ground arith
matches-starts_with (suc fuel) h n (d ∷ s) (c ∷ t) m (here, ne, there) (here', ne', there') enough =
    let rest = matches-starts_with fuel (h + 1) (n + 1) s t m there there' (omega arith) in
    ground (arith, here, ne, here', ne', rest)

-- One round of the loop, when it is known what the inner loop finds.
strstr_loop-suc :
    (inner fuel h n d c : ℕ) (b : Bool) (m : Memory)
    → m h ≡ d
    → d ≢ 0
    → m n ≡ c
    → matches inner h n m ≡ some ((d == c) && b)
    → strstr_loop inner (suc fuel) h n m
      ≡ (if (d == c) && b then some h else strstr_loop inner fuel (h + 1) n m)
unfolding strstr_loop
strstr_loop-suc inner fuel h n d c b m here ne first found = elim (Bool-cases (d == c)) [
  | inr differ ↦ ground (arith, here, ne, first, differ)
  | inl same ↦ elim (Bool-cases b) [
    | inl yes_b ↦ ground (arith, here, ne, first, same, yes_b, found)
    | inr no_b ↦ ground (arith, here, ne, first, same, no_b, found)
  ]
]

strstr_loop-end :
    (inner fuel h n : ℕ) (m : Memory) → m h ≡ 0 → strstr_loop inner (suc fuel) h n m ≡ some 0
unfolding strstr_loop
strstr_loop-end inner fuel h n m end = ground (arith, end)

pointer_to-suc :
    (h : ℕ) (o : Option ℕ)
    → some (pointer_to (h + 1) o)
      ≡ some (pointer_to h (elim o [ none ↦ none | some i ↦ some (suc i) ]))
pointer_to-suc h none = refl
pointer_to-suc h (some i) = ap some (omega arith)

strstr_loop_lem :
    (inner fuel h n c : ℕ) (s t : List ℕ) (m : Memory)
    → StoredString m h s
    → StoredString m n (c ∷ t)
    → length s < fuel
    → suc (length t) < inner
    → strstr_loop inner fuel h n m ≡ some (pointer_to h (sublist_position (c ∷ t) s))
unfolding StoredString sublist_position starts_with
strstr_loop_lem inner zero h n c s t m hay needle enough lt = absurd (omega arith)
strstr_loop_lem inner (suc fuel) h n c [] t m hay needle enough lt =
    strstr_loop-end inner fuel h n m hay
strstr_loop_lem inner (suc fuel) h n c (d ∷ s) t m (here, ne, there) needle enough lt =
    let rest = strstr_loop_lem inner fuel (h + 1) n c s t m there needle (omega arith) lt in
    let match =
      matches-starts_with inner h n (d ∷ s) (c ∷ t) m (here, ne, there) needle (omega arith) in
    let round = strstr_loop-suc inner fuel h n d c (starts_with t s) m here ne needle.0 match in
    elim (Bool-cases ((d == c) && starts_with t s)) [
      | inl hit ↦ ground (arith, round, hit)
      | inr miss ↦
          let on : strstr_loop inner (suc fuel) h n m ≡ strstr_loop inner fuel (h + 1) n m =
            ground (arith, round, miss) in
          rw (pointer_to, miss) (on ∙ rest ∙ pointer_to-suc h (sublist_position (c ∷ t) s))
    ]

-- `strstr` of two strings ends with the address of the first place at which the haystack holds the
-- needle, or with `NULL` where it does not.
pub strstr-sublist_position :
    (haystack needle : ℕ) (s t : List ℕ) (m : Memory)
    → StoredString m haystack s
    → StoredString m needle t
    → length s < 2 ^ 64
    → length t < 2 ^ 64
    → strstr haystack needle m ≡ some (pointer_to haystack (sublist_position t s))
unfolding strstr StoredString sublist_position starts_with
strstr-sublist_position h n [] [] m hay needle ls lt = ground arith
strstr-sublist_position h n (d ∷ s) [] m hay needle ls lt = ground arith
strstr-sublist_position h n s (c ∷ t) m hay (here, ne, there) ls lt = ground (
  arith,
  here,
  ne,
  strstr_loop_lem string_fuel string_fuel h n c s t m hay (here, ne, there) (omega arith)
      (omega arith),
)
