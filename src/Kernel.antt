-- ===== src/Kernel.antt =====
-- The kernel as a whole: kernel_main of kernel/kernel_main.c, and irq_handler of
-- kernel/arch/x86_64/isr.c, by which events reach it.
pub mod Boot
pub mod Irq
pub mod Reachable
pub mod Typed
pub mod Samples
mod Tests
use zer0s.Prelude.{
  ℕ, Bool, true, false, not, Option, none, some, List, [], ◌∷◌, leb, ◌==◌, if◌then◌else◌, bytes,
}
use zer0s.Console.{Console, Item, text, number, print, terminal_clear}
use zer0s.Frames.{memory_init}
use zer0s.Heap.{kmalloc, kfree}
use zer0s.Interrupts.Idt.{Idt, Handlers, idt_init}
use zer0s.Interrupts.Pic.{Ports, outb, pic_remap}
use zer0s.Machine.{Machine, Run, running, halted, diverges}
use zer0s.Shell.{show, shell_init}
use zer0s.Keyboard.{Keyboard, keyboard_handler, keyboard_init}

-- All the state that the kernel keeps.
pub record Kernel : Type 0 where
  pub idt : Idt
  pub keyboard : Keyboard
  pub machine : Machine

-- The end of `irq_handler`: the controllers are told that the interrupt is over.
unfoldable pub acknowledge : (int_no : ℕ) → Ports → Ports
unfolding outb
acknowledge int_no ports = outb 0x20 0x20 (if leb 40 int_no then outb 0xA0 0x20 ports else ports)

-- What the handler does with the run of the keyboard's handler: where that does not return, neither
-- does this one.
unfoldable pub end_irq : (int_no : ℕ) → Idt → Run (Keyboard × Machine) → Run Kernel
unfolding acknowledge
end_irq int_no idt (running (k, m)) =
    running (record {
      idt = idt;
      keyboard = k;
      machine = record m { ports = acknowledge int_no m.ports };
    })
end_irq int_no idt (halted (k, m)) = halted (record { idt = idt; keyboard = k; machine = m })
end_irq int_no idt diverges = diverges

-- `irq_handler`, of whose registers only `int_no` is read. What the keyboard's ports answer is the
-- hardware's.
unfoldable pub irq_handler :
    (status answer : ℕ → ℕ) → (fuel reads : ℕ) → (int_no : ℕ) → Kernel → Run Kernel
irq_handler status answer fuel reads int_no s = end_irq int_no s.idt (
    if int_no == 33
    then keyboard_handler status answer fuel reads s.keyboard s.machine
    else running (s.keyboard, s.machine))

-- The texts of `kernel_main` up to `memory_init`, between the calls.
unfoldable pub banner : List Item
banner =
    text (bytes "========================================\n")
    ∷ text (bytes "  Zer0S v2.0 - 64-bit Kernel!\n")
    ∷ text (bytes "========================================\n\n")
    ∷ text (bytes "[OK] Running in 64-bit Long Mode\n")
    ∷ text (bytes "[OK] VGA Text Mode: 80x25\n\n")
    ∷ text (bytes "[INFO] Initializing IDT...\n")
    ∷ []

-- The calls up to `memory_init`, which does not read what `magic` and `addr` lead to.
unfoldable pub init_devices : Handlers → (addr : ℕ) → Kernel → Kernel
init_devices handlers addr s =
    let t1 = print banner (terminal_clear s.machine.console) in
    let idt = idt_init handlers s.idt in
    let t2 =
      print (text (bytes "[OK] IDT initialized\n") ∷ text (bytes "[INFO] Remapping PIC...\n") ∷ [])
        t1 in
    let ports = pic_remap s.machine.ports in
    let t3 =
      print
        (text (bytes "[OK] PIC remapped (IRQs 32-47)\n")
          ∷ text (bytes "[INFO] Initializing keyboard...\n")
          ∷ [])
        t2 in
    let t4 =
      print (text (bytes "[INFO] Initializing memory manager...\n") ∷ []) (keyboard_init t3) in
    let (frames, t5) = memory_init addr 0 s.machine.frames t4 in
    record s {
      idt = idt;
      machine = record s.machine {
        console = print (text (bytes "[OK] Memory manager initialized\n") ∷ []) t5;
        frames = frames;
        ports = ports;
      };
    }

-- The block under `if (test)`.
unfoldable pub use_block : (test : ℕ) → Machine → Machine
use_block test m =
    if not (test == 0)
    then record m {
      heap = kfree test m.heap;
      console = print (text (bytes "[TEST] kfree() successful\n") ∷ []) (
          print
            (text (bytes "[TEST] kmalloc(64) successful at address: ")
              ∷ number test
              ∷ text (bytes "\n")
              ∷ [])
            m.console);
    }
    else m

-- The test of the heap: a block of 64 bytes is allocated and freed.
unfoldable pub test_heap : Machine → Run Machine
test_heap m = elim (kmalloc 64 m.heap m.console) [
  | none ↦ diverges
  | some (test, heap, console) ↦
      running (use_block test (record m { heap = heap; console = console }))
]

-- The end of `kernel_main`: `sti` and the shell's greeting.
unfoldable pub start_shell : Machine → Machine
start_shell m =
    let enabled = record (show (text (bytes "[INFO] Enabling interrupts...\n") ∷ []) m) {
      interrupts = true;
    } in
    let told = show (text (bytes "[OK] Interrupts enabled\n\n") ∷ []) enabled in
    record told { console = shell_init told.console }

unfoldable pub end_boot : Kernel → Run Machine → Run Kernel
end_boot s (running m) = running (record s { machine = start_shell m })
end_boot s (halted m) = halted (record s { machine = m })
end_boot s diverges = diverges

-- `kernel_main` up to its endless loop, in which only interrupts do anything.
unfoldable pub kernel_main : Handlers → (magic addr : ℕ) → Kernel → Run Kernel
kernel_main handlers magic addr s =
    let s' = init_devices handlers addr s in end_boot s' (test_heap s'.machine)
