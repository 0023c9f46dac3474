-- ===== src/Strings/Tests.antt =====
-- The string functions on a small memory: "abc" at 100 and "bc" at 200.
use zer0s.Prelude.{ℕ, ◌<◌, ◌≡◌, refl, arith, some, List, [], ◌∷◌, ◌==◌, if◌then◌else◌, store}
use zer0s.Strings.{
  Memory, memmove, strlen, strstr, strncpy, strncmp, strncpy_from, strncmp_from, copy_down,
}
use zer0s.Strings.Stored.{StoredString}
use zer0s.Strings.Scan.{pointer_to, strlen-length}
use zer0s.Strings.Search.{sublist_position, strstr-sublist_position}

abbrev memory : Memory
memory = store (store (store (store (store (λ p. 0) 100 b'a') 101 b'b') 102 b'c') 200 b'b') 201 b'c'

abbrev abc : List ℕ
abc = b'a' ∷ b'b' ∷ b'c' ∷ []

abbrev bc : List ℕ
bc = b'b' ∷ b'c' ∷ []

memory-abc : StoredString memory 100 abc
unfolding StoredString
memory-abc = (refl, omega arith, (refl, omega arith, (refl, omega arith, refl)))

memory-bc : StoredString memory 200 bc
unfolding StoredString
memory-bc = (refl, omega arith, (refl, omega arith, refl))

memory-fits : (p : ℕ) → memory p < 256
memory-fits p = ground arith

moved_overlapping : memmove 101 100 3 memory 103 ≡ b'c'
unfolding memmove copy_down
moved_overlapping = refl

strlen-length_example : strlen 100 memory ≡ some 3
strlen-length_example = strlen-length 100 abc memory memory-abc (omega arith)

strstr-sublist_position_example :
    strstr 100 200 memory ≡ some (pointer_to 100 (sublist_position bc abc))
strstr-sublist_position_example =
    strstr-sublist_position 100 200 abc bc memory memory-abc memory-bc (omega arith) (omega arith)

found_at_101 : pointer_to 100 (sublist_position bc abc) ≡ 101
unfolding sublist_position
found_at_101 = refl

-- `strncpy` pads with NULs, and `strncmp` stops at its bound.
padded : strncpy 300 200 4 (λ p. if p == 303 then 7 else memory p) 303 ≡ 0
unfolding strncpy strncpy_from
padded = refl

bounded : strncmp 101 200 2 memory ≡ 0
unfolding strncmp strncmp_from
bounded = refl
