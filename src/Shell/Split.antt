-- ===== src/Shell/Split.antt =====
-- How the shell splits a line into command and arguments.
use zer0s.Prelude.{
  ℕ, zero, suc, ◌+◌, ◌≤◌, ◌<◌, ◌≡◌, ◌≢◌, refl, ap, arith, some, List, [], ◌∷◌, ◌++◌, length,
  replicate, length-replicate,
}
use zer0s.Strings.Stored.{StoredString}
use zer0s.Shell.{read_word, skip_spaces, read_args, split_line}

-- A word of a line: no byte of it is a space.
abbrev pub NoSpaces : List ℕ → Type 0
NoSpaces [] = Unit
NoSpaces (c ∷ s) = (c ≢ b' ') × NoSpaces s

-- What follows a word: nothing, or a space.
abbrev pub EndsWord : List ℕ → Type 0
EndsWord [] = Unit
EndsWord (c ∷ s) = c ≡ b' '

-- Arguments: their spaces are not in front.
abbrev pub NoSpaceFirst : List ℕ → Type 0
NoSpaceFirst [] = Unit
NoSpaceFirst (c ∷ s) = c ≢ b' '

abbrev pub spaces : ℕ → List ℕ
spaces k = replicate k b' '

pub StoredString-drop :
    (m : ℕ → ℕ) (p : ℕ) (w s : List ℕ) → StoredString m p (w ++ s) → StoredString m (p + length w) s
unfolding StoredString
StoredString-drop m p [] s at = let e : p + 0 ≡ p = omega arith in rw e at
StoredString-drop m p (c ∷ w) s (here, ne, there) =
    let e : p + suc (length w) ≡ p + 1 + length w = omega arith in
    rw e (StoredString-drop m (p + 1) w s there)

read_word_lem :
    (left i : ℕ) (input : ℕ → ℕ) (w s : List ℕ)
    → StoredString input i (w ++ s)
    → NoSpaces w
    → EndsWord s
    → length w ≤ left
    → read_word left i input ≡ (w, i + length w)
unfolding read_word StoredString
read_word_lem zero i input [] s at clean ends le = ground arith
read_word_lem zero i input (c ∷ w) s at clean ends le = absurd (omega arith)
read_word_lem (suc left) i input [] [] at clean ends le = ground arith
read_word_lem (suc left) i input [] (d ∷ s) at clean ends le = ground (arith, at.0)
read_word_lem (suc left) i input (c ∷ w) s (here, ne, there) clean ends le =
    let rest = read_word_lem left (i + 1) input w s there clean.1 ends (omega arith) in
    let e : i + 1 + length w ≡ i + suc (length w) = omega arith in
    ground (arith, here, ne, clean.0, rest)

skip_spaces_lem :
    (fuel i k : ℕ) (input : ℕ → ℕ) (s : List ℕ)
    → StoredString input i (spaces k ++ s)
    → NoSpaceFirst s
    → k < fuel
    → skip_spaces fuel i input ≡ some (i + k)
unfolding skip_spaces StoredString
skip_spaces_lem zero i k input s at first lt = absurd (omega arith)
skip_spaces_lem (suc fuel) i zero input [] at first lt = ground (arith, at)
skip_spaces_lem (suc fuel) i zero input (c ∷ s) at first lt = ground (arith, at.0)
skip_spaces_lem (suc fuel) i (suc k) input s (here, ne, there) first lt =
    ground (arith, here, skip_spaces_lem fuel (i + 1) k input s there first (omega arith))

read_args_lem :
    (left i : ℕ) (input : ℕ → ℕ) (s : List ℕ)
    → StoredString input i s
    → length s ≤ left
    → read_args left i input ≡ s
unfolding read_args StoredString
read_args_lem zero i input [] at le = refl
read_args_lem zero i input (c ∷ s) at le = absurd (omega arith)
read_args_lem (suc left) i input [] at le = ground (arith, at)
read_args_lem (suc left) i input (c ∷ s) (here, ne, there) le =
    ground (arith, here, ne, read_args_lem left (i + 1) input s there (omega arith))

-- A line of a word of at most 31 bytes, spaces, and arguments of at most 223 bytes that are in the
-- buffer is split into the word and the arguments, without the spaces between them; spaces within
-- the arguments stay.
pub split_line_lem :
    (input : ℕ → ℕ) (w : List ℕ) (k : ℕ) (s : List ℕ)
    → StoredString input 0 (w ++ (spaces k ++ s))
    → NoSpaces w
    → EndsWord (spaces k ++ s)
    → NoSpaceFirst s
    → length w ≤ 31
    → k < 256
    → length s ≤ 223
    → split_line input ≡ some (w, s)
unfolding split_line
split_line_lem input w k s at clean ends first lw lk ls =
    let size : length (spaces k) ≡ k = length-replicate k b' ' in
    let after_word = StoredString-drop input 0 w (spaces k ++ s) at in
    let after_spaces : StoredString input (0 + length w + k) s =
      rw size at (StoredString-drop input (0 + length w) (spaces k) s after_word) in
    let word = read_word_lem 31 0 input w (spaces k ++ s) at clean ends lw in
    let skipped = skip_spaces_lem 256 (0 + length w) k input s after_word first lk in
    let args = read_args_lem 223 (0 + length w + k) input s after_spaces ls in
    rw (split_line, word, skipped, args) (ap (λ (p : List ℕ × ℕ). some (p.0, s)) word)
