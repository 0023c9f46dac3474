-- ===== src/LongMode/Paging.antt =====
-- The addresses that the processor reaches through page tables: its walk over four levels, as
-- documented for 64-bit mode, over tables in the memory of 32-bit words.
use zer0s.Prelude.{
  ℕ, ◌+◌, ◌*◌, ◌/◌, ◌%◌, ◌^◌, ◌≤◌, ◌<◌, ◌≡◌, ap, ◌∙◌, arith, Bool, Option, none, some, ◌==◌,
  if◌then◌else◌,
}
use native.Mathlib.Decide.{dec_lt}
use zer0s.LongMode.{qword}
use zer0s.LongMode.Tables.{IsMapped}

abbrev present : ℕ → Bool
present entry = entry % 2 == 1

-- The page size bit, 7.
abbrev large : ℕ → Bool
large entry = entry / 128 % 2 == 1

-- The address in bits 12 to 51.
abbrev base : ℕ → ℕ
base entry = entry / 4096 % 2 ^ 40 * 4096

-- The index of an address into the table whose entries span 2 ^ shift bytes.
abbrev pub index : (shift va : ℕ) → ℕ
index shift va = va / 2 ^ shift % 512

unfoldable pub walk_table : (m : ℕ → ℕ) → (entry va : ℕ) → Option ℕ
walk_table m entry va =
    let e = qword m (base entry + 8 * index 12 va) in
    if present e then some (base e + va % 2 ^ 12) else none

unfoldable pub walk_directory : (m : ℕ → ℕ) → (entry va : ℕ) → Option ℕ
unfolding walk_table
walk_directory m entry va =
    let e = qword m (base entry + 8 * index 21 va) in
    if present e
    then (if large e then some (e / 2 ^ 21 % 2 ^ 31 * 2 ^ 21 + va % 2 ^ 21) else walk_table m e va)
    else none

unfoldable pub walk_pointers : (m : ℕ → ℕ) → (entry va : ℕ) → Option ℕ
unfolding walk_directory
walk_pointers m entry va =
    let e = qword m (base entry + 8 * index 30 va) in
    if present e
    then (if large e
        then some (e / 2 ^ 30 % 2 ^ 22 * 2 ^ 30 + va % 2 ^ 30)
        else walk_directory m e va)
    else none

-- The physical address behind a virtual one below 2 ^ 48; `none` is a page fault.
unfoldable pub translate : (m : ℕ → ℕ) → (cr3 va : ℕ) → Option ℕ
unfolding walk_pointers
translate m cr3 va =
    let e = qword m (base cr3 + 8 * index 39 va) in if present e then walk_pointers m e va else none

-- What each level does with its entry.
abbrev pub at_top : (m : ℕ → ℕ) → (va entry : ℕ) → Option ℕ
at_top m va e = if present e then walk_pointers m e va else none

abbrev at_pointers : (m : ℕ → ℕ) → (va entry : ℕ) → Option ℕ
at_pointers m va e =
    if present e
    then (if large e
        then some (e / 2 ^ 30 % 2 ^ 22 * 2 ^ 30 + va % 2 ^ 30)
        else walk_directory m e va)
    else none

abbrev at_directory : (m : ℕ → ℕ) → (va entry : ℕ) → Option ℕ
at_directory m va e =
    if present e
    then (if large e then some (e / 2 ^ 21 % 2 ^ 31 * 2 ^ 21 + va % 2 ^ 21) else walk_table m e va)
    else none

pub top-eq :
    (m : ℕ → ℕ) (va e : ℕ)
    → qword m (0x1000 + 8 * index 39 va) ≡ e
    → translate m 0x1000 va ≡ at_top m va e
unfolding translate
top-eq m va e at = ap (at_top m va) at

pointers-eq :
    (m : ℕ → ℕ) (va e : ℕ)
    → qword m (0x2000 + 8 * index 30 va) ≡ e
    → walk_pointers m 0x2003 va ≡ at_pointers m va e
unfolding walk_pointers
pointers-eq m va e at = ap (at_pointers m va) at

directory-eq :
    (m : ℕ → ℕ) (va e : ℕ)
    → qword m (0x3000 + 8 * index 21 va) ≡ e
    → walk_directory m 0x3003 va ≡ at_directory m va e
unfolding walk_directory
directory-eq m va e at = ap (at_directory m va) at

page-eq :
    (m : ℕ → ℕ) (va : ℕ)
    → va < 0x4000000
    → at_directory m va (0x83 + va / 2 ^ 21 * 0x200000) ≡ some va
page-eq m va lt = ground arith

-- The way to the directory, for an address below 1 GB.
below-eq :
    (m : ℕ → ℕ) (va : ℕ)
    → IsMapped m
    → va < 2 ^ 30
    → translate m 0x1000 va ≡ walk_directory m 0x3003 va
below-eq m va is lt =
    let i4 : 0x1000 + 8 * index 39 va ≡ 0x1000 = omega (arith, lt) in
    let i3 : 0x2000 + 8 * index 30 va ≡ 0x2000 = omega (arith, lt) in
    top-eq m va 0x2003 (ap (qword m) i4 ∙ is.top)
    ∙ pointers-eq m va 0x3003 (ap (qword m) i3 ∙ is.middle)

pub IsMapped-translate :
    (m : ℕ → ℕ) (va : ℕ) → IsMapped m → va < 0x4000000 → translate m 0x1000 va ≡ some va
IsMapped-translate m va is lt =
    let i2 : index 21 va ≡ va / 2 ^ 21 = omega (arith, lt) in
    let low : va / 2 ^ 21 < 32 = omega (arith, lt) in
    let e2 = ap (λ (i : ℕ). qword m (0x3000 + 8 * i)) i2 ∙ is.pages (va / 2 ^ 21) low in
    below-eq m va is (omega (arith, lt))
    ∙ directory-eq m va (0x83 + va / 2 ^ 21 * 0x200000) e2
    ∙ page-eq m va lt

pub IsMapped-fault :
    (m : ℕ → ℕ) (va : ℕ) → IsMapped m → 0x4000000 ≤ va → va < 2 ^ 48 → translate m 0x1000 va ≡ none
IsMapped-fault m va is ge lt = elim (dec_lt va (2 ^ 30)) [
  | yes low ↦
      let i2 : index 21 va ≡ va / 2 ^ 21 = omega (arith, low) in
      let high : 32 ≤ va / 2 ^ 21 = omega (arith, ge) in
      below-eq m va is low
      ∙ directory-eq m va 0 (
          ap (λ (i : ℕ). qword m (0x3000 + 8 * i)) i2
          ∙ is.pages_rest (va / 2 ^ 21) high (omega (arith, low)))
  | no high ↦ elim (dec_lt va (2 ^ 39)) [
    | yes low ↦
        let i4 : 0x1000 + 8 * index 39 va ≡ 0x1000 = omega (arith, low) in
        top-eq m va 0x2003 (ap (qword m) i4 ∙ is.top)
        ∙ pointers-eq m va 0 (is.middle_rest (index 30 va) (omega (arith, low, high)) (omega arith))
    | no top ↦ top-eq m va 0 (is.top_rest (index 39 va) (omega (arith, lt, top)) (omega arith))
  ]
]
