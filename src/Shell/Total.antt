-- ===== src/Shell/Total.antt =====
-- How the runs of the shell end, and what they do to the shared state.
use native.Mathlib.Decide.{ℕ_discrete}
use zer0s.Prelude.{
  ℕ, zero, suc, ap, ◌∙◌, ◌+◌, ◌≤◌, ◌<◌, ◌≡◌, ◌≢◌, inl, inr, refl, arith, Bool-cases, some, List,
  ltb, ◌==◌,
}
use zer0s.Heap.Live.{heap_init-id}
use zer0s.Heap.Alloc.{kmalloc_lem}
use zer0s.Heap.Status.{heap_status-Reported}
use zer0s.Machine.{Machine, Run, running, halted, diverges, Ensures}
use zer0s.Machine.Sound.{IsSound, Ensures-if}
use zer0s.Shell.{
  read_decimal, cmd_kmalloc, cmd_heap, cmd_reboot, run_command, with_prompt, shell_handle_command,
  split_line, read_word, skip_spaces, read_args,
}

cmd_heap-IsSound : (m : Machine) → IsSound m → Ensures IsSound (cmd_heap m)
unfolding cmd_heap
cmd_heap-IsSound m sound = rw (Ensures, (heap_status-Reported m.console sound.heap).returned) sound

cmd_kmalloc-IsSound :
    (args : List ℕ) (m : Machine) → IsSound m → Ensures IsSound (cmd_kmalloc args m)
unfolding cmd_kmalloc
cmd_kmalloc-IsSound args m sound = elim (Bool-cases (ltb 0 (read_decimal 0 args))) [
  | inr zero_size ↦ rw zero_size sound
  | inl positive ↦
      rw positive
        (elim (kmalloc_lem m.heap (read_decimal 0 args) m.console (ground arith)
          (rw (heap_init-id sound.heap) sound.heap)) [
            | inl r ↦
                rw r.returned (record { counted = sound.counted; live = r.live'; heap = r.state })
            | inr r ↦
                rw r.returned
                  (record { counted = sound.counted; live = sound.live; heap = r.state })
          ])
]

cmd_reboot-IsSound : (m : Machine) → IsSound m → Ensures IsSound (cmd_reboot m)
unfolding cmd_reboot
cmd_reboot-IsSound m sound = sound

pub run_command-IsSound :
    (cmd args : List ℕ) (m : Machine) → IsSound m → Ensures IsSound (run_command cmd args m)
unfolding run_command
run_command-IsSound cmd args m sound =
    search
      (
        Ensures-if,
        cmd_heap-IsSound m sound,
        cmd_kmalloc-IsSound args m sound,
        cmd_reboot-IsSound m sound,
        sound,
      )
      depth 20

with_prompt-IsSound : (r : Run Machine) → Ensures IsSound r → Ensures IsSound (with_prompt r)
unfolding with_prompt
with_prompt-IsSound (running m) h = h
with_prompt-IsSound (halted m) h = h
with_prompt-IsSound diverges h = h

read_word-le : (left i z : ℕ) (input : ℕ → ℕ) → i ≤ z → input z ≡ 0 → (read_word left i input).1 ≤ z
unfolding read_word
read_word-le zero i z input le at = le
read_word-le (suc left) i z input le at = elim (ℕ_discrete i z) [
  | yes e ↦ rw e (ground (arith, at))
  | no ne ↦ ground (arith, read_word-le left (i + 1) z input (omega arith) at)
]

skip_spaces_ends :
    (fuel i z : ℕ) (input : ℕ → ℕ)
    → i ≤ z
    → z < i + fuel
    → input z ≡ 0
    → (j : ℕ) × (skip_spaces fuel i input ≡ some j)
unfolding skip_spaces
skip_spaces_ends zero i z input le lt at = absurd (omega arith)
skip_spaces_ends (suc fuel) i z input le lt at = elim (Bool-cases (input i == b' ')) [
  | inr stop ↦ (i, rw stop refl)
  | inl space ↦
      let later : i ≢ z = λ e. (let here : input i ≡ 0 = ap input e ∙ at in ground arith) in
      let (j, e) = skip_spaces_ends fuel (i + 1) z input (omega arith) (omega arith) at in
      (j, rw space e)
]

split_line_ends :
    (input : ℕ → ℕ) (z : ℕ)
    → z < 256
    → input z ≡ 0
    → (line : List ℕ × List ℕ) × (split_line input ≡ some line)
unfolding split_line
split_line_ends input z lt at =
    let (j, e) =
      skip_spaces_ends 256 (read_word 31 0 input).1 z input
        (read_word-le 31 0 z input (omega arith) at) (omega arith) at in
    (((read_word 31 0 input).0, read_args 223 j input), rw (split_line, e) refl)

-- On a sound state, and a line with a NUL in the 256 bytes of the command buffer, the shell comes
-- to an end: it returns, or it halts in `reboot`, and either way the state is sound.
pub shell_handle_command-IsSound :
    (input : ℕ → ℕ) (z : ℕ) (m : Machine)
    → z < 256
    → input z ≡ 0
    → IsSound m
    → Ensures IsSound (shell_handle_command input m)
unfolding shell_handle_command
shell_handle_command-IsSound input z m lt at sound =
    let (line, e) = split_line_ends input z lt at in
    Ensures-if IsSound (input 0 == 0) _ _ sound
      (rw e (with_prompt-IsSound _ (run_command-IsSound line.0 line.1 m sound)))
