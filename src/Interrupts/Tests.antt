-- ===== src/Interrupts/Tests.antt =====
-- The interrupt code on controllers that answer the byte written last, and on a small memory.
use zer0s.Prelude.{
  ℕ, ◌+◌, ◌*◌, ◌%◌, ◌<◌, ◌≡◌, refl, arith, true, false, [], ◌∷◌, ◌==◌, if◌then◌else◌, store,
}
use zer0s.Console.{Console}
use zer0s.Interrupts.Idt.{IdtEntry, Idt, Handlers, gate}
use zer0s.Interrupts.Pic.{
  Ports, KeepsMask, is_masked, pic_start, pic_remap, pic_enable_irq, pic1_data,
}
use zer0s.Interrupts.Masks.{pic_enable_irq-pic_remap}
use zer0s.Interrupts.Isr.{Registers}
use zer0s.Strings.Stored.{Stored, StoredString}

abbrev screen : Console
screen = record { vga = λ i. 0; row = 0; col = 0 }

abbrev handlers : Handlers
handlers = record {
  table = 0x10000;
  isr = λ i. 0x20000 + 16 * i;
  irq = λ i. 0x30000 + 16 * i;
  syscall_handler = 0x40000;
  isr_default = 0x50000;
}

abbrev empty : IdtEntry
empty = gate 0 0 0

abbrev no_idt : Idt
no_idt = record {
  idt = λ v. empty;
  idtp = record { limit = 0; base = 0 };
  loaded = record { limit = 0; base = 0 };
}

-- Controllers that answer on every port with the byte written there last.
unfoldable echo : Ports → ℕ → ℕ
echo [] port = 0
echo ((p, v) ∷ ports) port = if p == port then v % 256 else echo ports port

echo-lt : (ports : Ports) (p : ℕ) → echo ports p < 256
unfolding echo
echo-lt [] p = omega arith
echo-lt ((q, v) ∷ ports) p = ground (arith, echo-lt ports p)

echo-KeepsMask : (ports : Ports) → KeepsMask echo ports
unfolding echo
echo-KeepsMask ports = record {
  same = λ p v data_port lt. ground arith;
  other = λ p q v p_data q_data ne. ground arith;
  in_byte = λ p. echo-lt ports p;
}

pic_enable_irq-pic_remap_example :
    (is_masked echo (pic_enable_irq echo 12 (pic_remap [])) 12 ≡ false)
    × (is_masked echo (pic_enable_irq echo 12 (pic_remap [])) 2 ≡ true)
pic_enable_irq-pic_remap_example =
    pic_enable_irq-pic_remap echo [] 12 (echo-KeepsMask (pic_start []))
      (echo-KeepsMask ((pic1_data, 0xFD) ∷ pic_start [])) (echo-KeepsMask (pic_remap []))
      (omega arith) (omega arith)

-- A page fault.
abbrev page_fault : Registers
page_fault = record {
  int_no = 14;
  err_code = 2;
  rip = 0x101000;
  cs = 8;
  rflags = 0x202;
  rsp = 0x90000;
  ss = 16;
}

-- The string "ok" at address 100.
abbrev memory : ℕ → ℕ
memory = store (store (λ p. 0) 100 b'o') 101 b'k'

memory-Stored : Stored memory 100 (b'o' ∷ b'k' ∷ [])
unfolding Stored
memory-Stored = (refl, (refl, tt))

memory-StoredString : StoredString memory 100 (b'o' ∷ b'k' ∷ [])
unfolding StoredString
memory-StoredString = (refl, omega arith, (refl, omega arith, refl))
