-- ===== src/Interrupts/Idt.antt =====
-- The interrupt descriptor table of kernel/arch/x86_64/idt.c.
use zer0s.Prelude.{
  ℕ, ◌+◌, ◌-◌, ◌*◌, ◌/◌, ◌%◌, ◌^◌, ◌≤◌, ◌<◌, ◌≡◌, refl, arith, ltb, ◌==◌, if◌then◌else◌, store,
  for_rounds, for_rounds_inv,
}

-- `struct idt_entry`
pub record IdtEntry : Type 0 where
  pub base_low : ℕ
  pub selector : ℕ
  pub ist : ℕ
  pub flags : ℕ
  pub base_mid : ℕ
  pub base_high : ℕ
  pub reserved : ℕ

-- `struct idt_ptr`
pub record IdtPtr : Type 0 where
  pub limit : ℕ
  pub base : ℕ

-- The table, `idtp`, and what `lidt` has loaded last.
pub record Idt : Type 0 where
  pub idt : ℕ → IdtEntry
  pub idtp : IdtPtr
  pub loaded : IdtPtr

-- The addresses that the linker gives to the table and to the handlers of isr.asm and
-- isr_default.asm.
pub record Handlers : Type 0 where
  pub table : ℕ
  pub isr : ℕ → ℕ
  pub irq : ℕ → ℕ
  pub syscall_handler : ℕ
  pub isr_default : ℕ

-- `x & 0xFFFF` and `x & 0xFFFFFFFF` are remainders, and the shifts quotients.
unfoldable pub gate : ℕ → ℕ → ℕ → IdtEntry
gate base selector flags = record {
  base_low = base % 2 ^ 16;
  base_mid = base / 2 ^ 16 % 2 ^ 16;
  base_high = base / 2 ^ 32 % 2 ^ 32;
  selector = selector;
  ist = 0;
  flags = flags;
  reserved = 0;
}

unfoldable pub idt_set_gate : ℕ → ℕ → ℕ → ℕ → (ℕ → IdtEntry) → (ℕ → IdtEntry)
unfolding gate
idt_set_gate num base selector flags idt = store idt num (gate base selector flags)

-- The straight-line calls for the vectors 0 to 31 and 32 to 47 are loops here, in the same order.
unfoldable pub idt_init : Handlers → Idt → Idt
unfolding idt_set_gate
idt_init hs s =
    let idtp : IdtPtr = record { limit = 256 * 16 - 1; base = hs.table } in
    let defaults = for_rounds (λ i t. idt_set_gate i hs.isr_default 0x08 0x8E t) 256 0 s.idt in
    let exceptions = for_rounds (λ i t. idt_set_gate i (hs.isr i) 0x08 0x8E t) 32 0 defaults in
    let irqs = for_rounds (λ i t. idt_set_gate i (hs.irq (i - 32)) 0x08 0x8E t) 16 32 exceptions in
    record { idt = idt_set_gate 0x80 hs.syscall_handler 0x08 0xEE irqs; idtp = idtp; loaded = idtp }

-- The address that the processor reads out of an entry.
unfoldable pub gate_base : IdtEntry → ℕ
gate_base e = e.base_low + e.base_mid * 2 ^ 16 + e.base_high * 2 ^ 32

-- The three parts of an entry make up the 64-bit address that was set, and no other entry changes.
pub gate_base-idt_set_gate :
    (num base selector flags : ℕ) (idt : ℕ → IdtEntry)
    → base < 2 ^ 64
    → let t = idt_set_gate num base selector flags idt in
      (gate_base (t num) ≡ base)
      × ((v : ℕ) → t v ≡ (if num == v then gate base selector flags else idt v))
unfolding gate_base idt_set_gate
gate_base-idt_set_gate num base selector flags idt lt = (ground arith, λ v. ground arith)

-- What a run of gates leaves at each vector.
gates_cell :
    (f : ℕ → IdtEntry) (n first : ℕ) (m : ℕ → IdtEntry) (v : ℕ)
    → for_rounds (λ i t. store t i (f i)) n first m v
      ≡ (if ltb v first then m v else if ltb v (first + n) then f v else m v)
gates_cell f n first m =
    (for_rounds_inv (λ i t. store t i (f i))
      (λ k (t : ℕ → IdtEntry).
        (first ≤ k) × ((v : ℕ) → t v ≡ (if ltb v first then m v else if ltb v k then f v else m v)))
      (λ k t (le, h). (omega arith, λ v. ground (arith, h v))) n first (first + n) refl m
      (omega arith, λ v. ground arith)).1

-- The gate that each vector is meant to have.
unfoldable pub wanted_gate : Handlers → ℕ → IdtEntry
wanted_gate hs v =
    if v == 0x80
    then gate hs.syscall_handler 0x08 0xEE
    else if ltb v 32
    then gate (hs.isr v) 0x08 0x8E
    else if ltb v 48
    then gate (hs.irq (v - 32)) 0x08 0x8E
    else gate hs.isr_default 0x08 0x8E

-- `idt_init` gives each of the 256 vectors its gate (only the system call's is open to user mode),
-- writes no entry past them, and loads a pointer whose limit is that of 256 entries.
pub idt_init_gates :
    (hs : Handlers) (s : Idt)
    → ((v : ℕ) → v < 256 → (idt_init hs s).idt v ≡ wanted_gate hs v)
      × ((v : ℕ) → 256 ≤ v → (idt_init hs s).idt v ≡ s.idt v)
      × ((idt_init hs s).loaded ≡ record { limit = 4095; base = hs.table })
unfolding idt_init wanted_gate
idt_init_gates hs s = (
  λ v lt. ground (arith, at_default v, at_exception v, at_irq v),
  λ v ge. ground (arith, at_default v, at_exception v, at_irq v),
  refl,
)
  where
    defaults : ℕ → IdtEntry
    defaults = for_rounds (λ i t. store t i (gate hs.isr_default 0x08 0x8E)) 256 0 s.idt

    exceptions : ℕ → IdtEntry
    exceptions = for_rounds (λ i t. store t i (gate (hs.isr i) 0x08 0x8E)) 32 0 defaults

    at_default :
        (v : ℕ)
        → defaults v ≡ (
            if ltb v 0
            then s.idt v
            else if ltb v 256
            then gate hs.isr_default 0x08 0x8E
            else s.idt v)
    at_default = gates_cell (λ i. gate hs.isr_default 0x08 0x8E) 256 0 s.idt

    at_exception :
        (v : ℕ)
        → exceptions v ≡ (
            if ltb v 0
            then defaults v
            else if ltb v 32
            then gate (hs.isr v) 0x08 0x8E
            else defaults v)
    at_exception = gates_cell (λ i. gate (hs.isr i) 0x08 0x8E) 32 0 defaults

    at_irq :
        (v : ℕ)
        → for_rounds (λ i t. store t i (gate (hs.irq (i - 32)) 0x08 0x8E)) 16 32 exceptions v ≡ (
            if ltb v 32
            then exceptions v
            else if ltb v 48
            then gate (hs.irq (v - 32)) 0x08 0x8E
            else exceptions v)
    at_irq = gates_cell (λ i. gate (hs.irq (i - 32)) 0x08 0x8E) 16 32 exceptions
