-- ===== src/Interrupts/Pic.antt =====
-- The interrupt controllers as kernel/arch/x86_64/pic.c programs them. The hardware behind `inb` is
-- an argument: what it answers on a port, after the writes so far.
use zer0s.Prelude.{
  ℕ, ◌-◌, ◌^◌, ◌<◌, ◌≡◌, ◌≢◌, ◌⊎◌, Bool, List, ◌∷◌, bit_and, bit_or, ltb, if◌then◌else◌, u8,
  byte_bit,
}

-- The writes by `outb` so far, port and value, the last one first.
abbrev pub Ports : Type 0
Ports = List (ℕ × ℕ)

unfoldable pub outb : ℕ → ℕ → Ports → Ports
outb port v ports = (port, v) ∷ ports

abbrev pub pic1_command : ℕ
pic1_command = 0x20

abbrev pub pic1_data : ℕ
pic1_data = 0x21

abbrev pub pic2_command : ℕ
pic2_command = 0xA0

abbrev pub pic2_data : ℕ
pic2_data = 0xA1

abbrev pub icw1_init : ℕ
icw1_init = 0x10

abbrev pub icw1_icw4 : ℕ
icw1_icw4 = 0x01

abbrev pub icw4_8086 : ℕ
icw4_8086 = 0x01

-- `pic_remap` up to the masks: the initialisation words.
unfoldable pub pic_start : Ports → Ports
unfolding outb
pic_start ports =
    let p1 = outb pic1_command (bit_or icw1_init icw1_icw4) ports in
    let p2 = outb pic2_command (bit_or icw1_init icw1_icw4) p1 in
    let p3 = outb pic1_data 32 p2 in
    let p4 = outb pic2_data 40 p3 in
    let p5 = outb pic1_data 4 p4 in
    let p6 = outb pic2_data 2 p5 in
    let p7 = outb pic1_data icw4_8086 p6 in outb pic2_data icw4_8086 p7

unfoldable pub pic_remap : Ports → Ports
unfolding pic_start outb
pic_remap ports = outb pic2_data 0xFF (outb pic1_data 0xFD (pic_start ports))

-- The port and the bit of an interrupt line, as both functions below compute them.
unfoldable pub line_port : ℕ → ℕ
line_port irq = if ltb irq 8 then pic1_data else pic2_data

unfoldable pub line_bit : ℕ → ℕ
line_bit irq = if ltb irq 8 then irq else irq - 8

module _ (inb : Ports → ℕ → ℕ) where
  unfoldable pub pic_enable_irq : ℕ → Ports → Ports
  unfolding line_port line_bit outb
  pic_enable_irq irq ports =
      let value = inb ports (line_port irq) in
      outb (line_port irq) (u8 (bit_and value (2 ^ 32 - 1 - 2 ^ line_bit irq))) ports

  unfoldable pub pic_disable_irq : ℕ → Ports → Ports
  unfolding line_port line_bit outb
  pic_disable_irq irq ports =
      let value = inb ports (line_port irq) in
      outb (line_port irq) (u8 (bit_or value (2 ^ line_bit irq))) ports

  -- Whether the controllers hold a line back.
  unfoldable pub is_masked : Ports → ℕ → Bool
  unfolding line_port line_bit byte_bit
  is_masked ports irq = byte_bit (inb ports (line_port irq)) (line_bit irq)

  -- Outside the initialisation sequence a controller answers on its data port with the mask that
  -- was written to it last, and a write to the other one's does not matter.
  pub record KeepsMask (ports : Ports) : Type 0 where
    pub same : (p v : ℕ) → (p ≡ pic1_data) ⊎ (p ≡ pic2_data) → v < 256 → inb ((p, v) ∷ ports) p ≡ v
    pub other :
        (p q v : ℕ)
        → (p ≡ pic1_data) ⊎ (p ≡ pic2_data)
        → (q ≡ pic1_data) ⊎ (q ≡ pic2_data)
        → p ≢ q
        → inb ((p, v) ∷ ports) q ≡ inb ports q
    pub in_byte : (p : ℕ) → inb ports p < 256
