-- ===== src/Interrupts/Isr.antt =====
-- The exception handler of kernel/arch/x86_64/isr.c.
use zer0s.Prelude.{
  ℕ, zero, suc, ◌≤◌, ◌<◌, ◌≡◌, refl, arith, Option, none, some, List, [], ◌∷◌, ltb, length, lt→ltb,
  if◌then◌else◌, bytes,
}
use zer0s.Console.{Console, Item, text, number, print}

-- `registers_t`, with the fields that the code reads.
pub record Registers : Type 0 where
  pub int_no : ℕ
  pub err_code : ℕ
  pub rip : ℕ
  pub cs : ℕ
  pub rflags : ℕ
  pub rsp : ℕ
  pub ss : ℕ

abbrev pub exception_messages : List (List ℕ)
exception_messages =
    bytes "Division By Zero"
    ∷ bytes "Debug"
    ∷ bytes "Non Maskable Interrupt"
    ∷ bytes "Breakpoint"
    ∷ bytes "Into Detected Overflow"
    ∷ bytes "Out of Bounds"
    ∷ bytes "Invalid Opcode"
    ∷ bytes "No Coprocessor"
    ∷ bytes "Double Fault"
    ∷ bytes "Coprocessor Segment Overrun"
    ∷ bytes "Bad TSS"
    ∷ bytes "Segment Not Present"
    ∷ bytes "Stack Fault"
    ∷ bytes "General Protection Fault"
    ∷ bytes "Page Fault"
    ∷ bytes "Unknown Interrupt"
    ∷ bytes "Coprocessor Fault"
    ∷ bytes "Alignment Check"
    ∷ bytes "Machine Check"
    ∷ bytes "Reserved"
    ∷ bytes "Reserved"
    ∷ bytes "Reserved"
    ∷ bytes "Reserved"
    ∷ bytes "Reserved"
    ∷ bytes "Reserved"
    ∷ bytes "Reserved"
    ∷ bytes "Reserved"
    ∷ bytes "Reserved"
    ∷ bytes "Reserved"
    ∷ bytes "Reserved"
    ∷ bytes "Reserved"
    ∷ bytes "Reserved"
    ∷ []

-- How a call ends: it returns, it halts the processor for good, or it has read an array out of its
-- bounds, from where C promises nothing.
pub data Outcome : Type 0 where
  returned : Console → Outcome
  halted : Console → Outcome
  out_of_bounds : Outcome

unfoldable pub get_elem? : List (List ℕ) → ℕ → Option (List ℕ)
get_elem? [] i = none
get_elem? (s ∷ ss) zero = some s
get_elem? (s ∷ ss) (suc i) = get_elem? ss i

-- What the handler prints of an exception with this message.
unfoldable pub exception_report : Registers → List ℕ → List Item
exception_report regs message =
    text (bytes "\n[EXCEPTION] ")
    ∷ text message
    ∷ text (bytes " (")
    ∷ number regs.int_no
    ∷ text (bytes ")\n")
    ∷ text (bytes "Error code: ")
    ∷ number regs.err_code
    ∷ text (bytes "\n")
    ∷ text (bytes "RIP: ")
    ∷ number regs.rip
    ∷ text (bytes "\n")
    ∷ text (bytes "CS: ")
    ∷ number regs.cs
    ∷ text (bytes "\n")
    ∷ text (bytes "RFLAGS: ")
    ∷ number regs.rflags
    ∷ text (bytes "\n")
    ∷ text (bytes "RSP: ")
    ∷ number regs.rsp
    ∷ text (bytes "\n")
    ∷ text (bytes "SS: ")
    ∷ number regs.ss
    ∷ text (bytes "\n")
    ∷ []

unfoldable pub isr_handler : Registers → Console → Outcome
unfolding exception_report get_elem?
isr_handler regs t =
    if ltb regs.int_no 32
    then elim (get_elem? exception_messages regs.int_no) [
      | none ↦ out_of_bounds
      | some message ↦ halted (print (exception_report regs message) t)
    ]
    else returned t

-- `i` is a position of the list.
Position-get_elem? :
    (ss : List (List ℕ)) (i : ℕ) → i < length ss → (s : List ℕ) × (get_elem? ss i ≡ some s)
unfolding get_elem?
Position-get_elem? [] i lt = absurd (omega arith)
Position-get_elem? (s ∷ ss) zero lt = (s, refl)
Position-get_elem? (s ∷ ss) (suc i) lt = Position-get_elem? ss i (omega arith)

-- The exception handler reads inside its table of messages on every vector: it halts with the
-- report of the message at the vector when that is an exception, below 32, and else returns with
-- nothing printed.
pub isr_handler_lem :
    (regs : Registers) (t : Console)
    → (regs.int_no < 32
        → (message : List ℕ) × (get_elem? exception_messages regs.int_no ≡ some message)
          × (isr_handler regs t ≡ halted (print (exception_report regs message) t)))
      × (32 ≤ regs.int_no → isr_handler regs t ≡ returned t)
unfolding isr_handler
isr_handler_lem regs t = (
  λ lt.
      let (message, at) = Position-get_elem? exception_messages regs.int_no lt in
      (message, at, rw (at, lt→ltb regs.int_no 32 lt) refl),
  λ ge. ground arith,
)
