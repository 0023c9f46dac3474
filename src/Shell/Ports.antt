-- ===== src/Shell/Ports.antt =====
-- What the commands of the shell do to the controllers.
use zer0s.Prelude.{
  ℕ, ltb, ◌==◌, ◌≡◌, refl, Bool, true, false, Option, none, some, List, if◌then◌else◌,
}
use zer0s.Heap.{kmalloc, heap_status}
use zer0s.Machine.{Machine, Run, running, halted, diverges}
use zer0s.Shell.{
  cmd_kmalloc, cmd_heap, cmd_reboot, run_command, with_prompt, split_line, read_decimal,
  shell_handle_command,
}

-- Where the code returns, what it leaves satisfies the predicate.
abbrev pub Returns {ℓ} : {A : Type ℓ} → (A → Type 0) → Run A → Type 0
Returns P (running a) = P a
Returns P (halted a) = Unit
Returns P diverges = Unit

pub Returns-if {ℓ} :
    {A : Type ℓ} (P : A → Type 0) (b : Bool) (r s : Run A)
    → Returns P r
    → Returns P s
    → Returns P (if b then r else s)
Returns-if P true r s hr hs = hr
Returns-if P false r s hr hs = hs

pub Returns-elim {ℓ} :
    {A : Type ℓ} {B : Type 0} (P : B → Type 0) (o : Option A) (f : A → Run B)
    → ((a : A) → Returns P (f a))
    → Returns P (elim o [ none ↦ diverges | some a ↦ f a ])
Returns-elim P none f h = tt
Returns-elim P (some a) f h = h a

abbrev pub SamePorts : Machine → Machine → Type 0
SamePorts m m' = m'.ports ≡ m.ports

cmd_heap-Returns : (m : Machine) → Returns (SamePorts m) (cmd_heap m)
unfolding cmd_heap
cmd_heap-Returns m = Returns-elim (SamePorts m) (heap_status m.heap m.console) _ (λ console. refl)

cmd_kmalloc-Returns : (args : List ℕ) (m : Machine) → Returns (SamePorts m) (cmd_kmalloc args m)
unfolding cmd_kmalloc
cmd_kmalloc-Returns args m =
    Returns-if (SamePorts m) (ltb 0 (read_decimal 0 args)) _ _
      (Returns-elim (SamePorts m) (kmalloc (read_decimal 0 args) m.heap m.console) _ (λ out. refl))
      refl

cmd_reboot-Returns : (m : Machine) → Returns (SamePorts m) (cmd_reboot m)
unfolding cmd_reboot
cmd_reboot-Returns m = tt

run_command-Returns :
    (cmd args : List ℕ) (m : Machine) → Returns (SamePorts m) (run_command cmd args m)
unfolding run_command
run_command-Returns cmd args m =
    let same : m.ports ≡ m.ports = refl in
    search (Returns-if, cmd_heap-Returns m, cmd_kmalloc-Returns args m, cmd_reboot-Returns m, same)
      depth 20

with_prompt-Returns :
    (m : Machine) (r : Run Machine)
    → Returns (SamePorts m) r
    → Returns (SamePorts m) (with_prompt r)
unfolding with_prompt
with_prompt-Returns m (running m') h = h
with_prompt-Returns m (halted m') h = h
with_prompt-Returns m diverges h = h

pub shell_handle_command-Returns :
    (input : ℕ → ℕ) (m : Machine) → Returns (SamePorts m) (shell_handle_command input m)
unfolding shell_handle_command
shell_handle_command-Returns input m = Returns-if (SamePorts m) (input 0 == 0) (running m) _ refl (
    Returns-elim (SamePorts m) (split_line input) _
      (λ line. with_prompt-Returns m _ (run_command-Returns line.0 line.1 m)))
