-- ===== src/Interrupts/Syscall.antt =====
-- The system calls of kernel/core/syscall.c, whose code kernel/arch/x86_64/syscall.c repeats.
use zer0s.Prelude.{
  ℕ, zero, suc, ◌+◌, ◌-◌, ◌≤◌, ◌<◌, ◌^◌, ◌≡◌, refl, ap, sym, ◌∙◌, arith, Option, none, some, true,
  false, List, [], ◌∷◌, length, ◌==◌, if◌then◌else◌, for_rounds, u64, bytes,
}
use zer0s.Strings.Stored.{Stored, StoredString, StoredString-Stored}
use zer0s.Console.{
  Console, terminal_writechar, terminal_writestring, print_hex, text, number, print,
}

abbrev pub sys_write : ℕ
sys_write = 1

abbrev pub sys_print_string : ℕ
sys_print_string = 3

abbrev pub sys_print_hex : ℕ
sys_print_hex = 4

abbrev pub sys_getchar : ℕ
sys_getchar = 5

-- The text from an address up to its NUL. On fuel: `none` when no NUL is among the bytes read.
unfoldable pub read_string : ℕ → (ℕ → ℕ) → ℕ → Option (List ℕ)
read_string zero memory p = none
read_string (suc fuel) memory p = elim (memory (u64 p) == 0) [
  | true ↦ some []
  | false ↦ elim (read_string fuel memory (p + 1)) [
    | none ↦ none
    | some s ↦ some (memory (u64 p) ∷ s)
  ]
]

-- The loop of `SYS_WRITE`.
unfoldable pub write_bytes : (ℕ → ℕ) → ℕ → ℕ → Console → Console
write_bytes memory p n t = for_rounds (λ i t. terminal_writechar (memory (u64 (p + i))) t) n 0 t

-- The result is `none` only when a string never ends.
unfoldable pub syscall_dispatcher :
    (ℕ → ℕ) → (syscall_num arg1 arg2 arg3 : ℕ) → Console → Option (ℕ × Console)
unfolding write_bytes
syscall_dispatcher memory syscall_num arg1 arg2 arg3 t =
    if syscall_num == sys_write
    then some (arg2, write_bytes memory arg1 arg2 t)
    else if syscall_num == sys_print_string
    then elim (read_string (2 ^ 64) memory arg1) [
      | none ↦ none
      | some s ↦ some (0, terminal_writestring s t)
    ]
    else if syscall_num == sys_print_hex
    then some (0, print_hex arg1 t)
    else if syscall_num == sys_getchar
    then some (0, t)
    else some (
      2 ^ 64 - 1,
      print
          (text (bytes "\n[ERROR] Unknown syscall: ") ∷ number syscall_num ∷ text (bytes "\n") ∷ [])
          t,
    )

write_bytes_from :
    (memory : ℕ → ℕ) (p i : ℕ) (s : List ℕ) (t : Console)
    → Stored memory (p + i) s
    → p + i + length s ≤ 2 ^ 64
    → for_rounds (λ i t. terminal_writechar (memory (u64 (p + i))) t) (length s) i t
      ≡ terminal_writestring s t
unfolding for_rounds terminal_writestring Stored
write_bytes_from memory p i [] t at le = refl
write_bytes_from memory p i (c ∷ s) t (here, there) le =
    let same : u64 (p + i) ≡ p + i = omega arith in
    let next : p + i + 1 ≡ p + (i + 1) = omega arith in
    let first : memory (u64 (p + i)) ≡ c = ap memory same ∙ here in
    ap
      (λ (x : ℕ).
        for_rounds (λ i t. terminal_writechar (memory (u64 (p + i))) t) (length s) (i + 1)
          (terminal_writechar x t))
      first
    ∙ (write_bytes_from memory p (i + 1) s (terminal_writechar c t) (rw (sym next) there)
        (omega arith))

read_string_lem :
    (memory : ℕ → ℕ) (fuel p : ℕ) (s : List ℕ)
    → StoredString memory p s
    → p + length s < 2 ^ 64
    → length s < fuel
    → read_string fuel memory p ≡ some s
unfolding read_string StoredString
read_string_lem memory zero p s at lt enough = absurd (omega arith)
read_string_lem memory (suc fuel) p [] at lt enough =
    let same : u64 p ≡ p = omega arith in
    let end : memory (u64 p) ≡ 0 = ap memory same ∙ at in rw (read_string, end) refl
read_string_lem memory (suc fuel) p (c ∷ s) (here, ne, there) lt enough =
    let same : u64 p ≡ p = omega arith in
    let first : memory (u64 p) ≡ c = ap memory same ∙ here in
    let rest = read_string_lem memory fuel (p + 1) s there (omega arith) (omega arith) in
    ground (arith, first, ne, rest)

-- `SYS_WRITE` prints any bytes of memory, NULs included, as many as it is told, and returns their
-- number, when they end at the last address at most.
pub syscall_dispatcher_writes :
    (memory : ℕ → ℕ) (p arg3 : ℕ) (s : List ℕ) (t : Console)
    → Stored memory p s
    → p + length s ≤ 2 ^ 64
    → syscall_dispatcher memory sys_write p (length s) arg3 t
      ≡ some (length s, terminal_writestring s t)
unfolding syscall_dispatcher write_bytes
syscall_dispatcher_writes memory p arg3 s t at le =
    ap (λ (u : Console). some (length s, u))
      (write_bytes_from memory p 0 s t (let e : p ≡ p + 0 = omega arith in rw (sym e) at)
        (omega arith))

-- On a string that ends before the last address `SYS_PRINT_STRING` returns, with the same on the
-- screen as `SYS_WRITE` of its length, and its result is 0.
pub syscall_dispatcher_prints :
    (memory : ℕ → ℕ) (p arg2 arg3 : ℕ) (s : List ℕ) (t : Console)
    → StoredString memory p s
    → p + length s < 2 ^ 64
    → (u : Console) × (syscall_dispatcher memory sys_print_string p arg2 arg3 t ≡ some (0, u))
      × (syscall_dispatcher memory sys_write p (length s) arg3 t ≡ some (length s, u))
unfolding syscall_dispatcher
syscall_dispatcher_prints memory p arg2 arg3 s t at lt = (
  terminal_writestring s t,
  rw (read_string_lem memory (2 ^ 64) p s at lt (omega arith)) refl,
  syscall_dispatcher_writes memory p arg3 s t (StoredString-Stored memory p s at) (omega arith),
)
