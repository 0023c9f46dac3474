-- ===== src/Interrupts/Masks.antt =====
-- Which lines the interrupt controllers hold back.
use mathlib.Core.Path.{ap}
use native.Mathlib.Decide.{ℕ_discrete}
use zer0s.Prelude.{
  ℕ, ◌≤◌, ◌<◌, ◌≡◌, ◌⊎◌, refl, arith, Bool, true, false, not, ◌∷◌, ◌==◌, if◌then◌else◌, byte_bit,
  byte_bit-or, byte_bit-clear, bool_eq, bool_eq_sound, holds_below, holds_below_lem,
}
use zer0s.Interrupts.Pic.{
  Ports, outb, pic1_data, pic2_data, pic_start, pic_remap, line_port, line_bit, pic_enable_irq,
  pic_disable_irq, is_masked, KeepsMask,
}

remap_table :
    holds_below
      (λ j.
        bool_eq
          (if line_port 8 == line_port j
            then byte_bit 0xFF (line_bit j)
            else byte_bit 0xFD (line_bit j))
          (not (j == 1)))
      16
    ≡ true
unfolding holds_below line_port line_bit byte_bit bool_eq
remap_table = refl

remap_bits :
    (j : ℕ)
    → j < 16
    → (if line_port 8 == line_port j
        then byte_bit 0xFF (line_bit j)
        else byte_bit 0xFD (line_bit j))
      ≡ not (j == 1)
remap_bits j hj = bool_eq_sound _ _ (holds_below_lem _ 16 remap_table j hj)

module _ (inb : Ports → ℕ → ℕ) where
  line_port-IsData : (irq : ℕ) → (line_port irq ≡ pic1_data) ⊎ (line_port irq ≡ pic2_data)
  unfolding line_port
  line_port-IsData irq = ground arith

  -- A mask written to the port of line `irq` is what the lines of that port are held back by.
  is_masked-write :
      (ports : Ports) (irq j v : ℕ)
      → KeepsMask inb ports
      → v < 256
      → is_masked inb ((line_port irq, v) ∷ ports) j
        ≡ (if line_port irq == line_port j then byte_bit v (line_bit j) else is_masked inb ports j)
  unfolding is_masked
  is_masked-write ports irq j v keeps lt = elim (ℕ_discrete (line_port irq) (line_port j)) [
    | yes e ↦
        let same = keeps.same (line_port j) v (line_port-IsData j) lt in
        rw e (ground (arith, ap (λ x. byte_bit x (line_bit j)) same))
    | no ne ↦
        let other =
          keeps.other (line_port irq) (line_port j) v (line_port-IsData irq) (line_port-IsData j)
            ne in
        ground (arith, ap (λ x. byte_bit x (line_bit j)) other)
  ]

  line_bit-lt : (irq : ℕ) → irq < 16 → line_bit irq < 8
  unfolding line_bit
  line_bit-lt irq lt = ground arith

  line-eq :
      (irq j : ℕ) (a b : Bool)
      → irq < 16
      → j < 16
      → (if line_port irq == line_port j then (if line_bit irq == line_bit j then a else b) else b)
        ≡ (if irq == j then a else b)
  unfolding line_port line_bit
  line-eq irq j a b hi hj = ground arith

  -- What a new mask that sets the line's bit to `new` does to all lines.
  mask_change :
      (ports : Ports) (irq j v : ℕ) (new : Bool)
      → KeepsMask inb ports
      → irq < 16
      → j < 16
      → v < 256
      → byte_bit v (line_bit j) ≡ (
          if line_bit irq == line_bit j
          then new
          else byte_bit (inb ports (line_port irq)) (line_bit j))
      → is_masked inb ((line_port irq, v) ∷ ports) j
        ≡ (if irq == j then new else is_masked inb ports j)
  unfolding is_masked
  mask_change ports irq j v new keeps hi hj lt bit =
      elim (ℕ_discrete (line_port irq) (line_port j)) [
        | yes e ↦
            let port = ap (λ (p : ℕ). byte_bit (inb ports p) (line_bit j)) e in
            ground (
              arith,
              bit,
              port,
              is_masked-write ports irq j v keeps lt,
              line-eq irq j new (is_masked inb ports j) hi hj,
            )
        | no ne ↦ ground (
          arith,
          is_masked-write ports irq j v keeps lt,
          line-eq irq j new (is_masked inb ports j) hi hj,
        )
      ]

  -- On controllers that keep their masks, enabling one of the 16 lines clears its mask bit and
  -- leaves the other 15 as they were.
  pub pic_enable_irq_lem :
      (ports : Ports) (irq j : ℕ)
      → KeepsMask inb ports
      → irq < 16
      → j < 16
      → is_masked inb (pic_enable_irq inb irq ports) j
        ≡ (if irq == j then false else is_masked inb ports j)
  unfolding pic_enable_irq outb
  pic_enable_irq_lem ports irq j keeps hi hj =
      mask_change ports irq j _ false keeps hi hj (omega arith)
        (byte_bit-clear _ _ _ (keeps.in_byte _) (line_bit-lt irq hi) (line_bit-lt j hj))

  -- On controllers that keep their masks, disabling one of the 16 lines sets its mask bit and
  -- leaves the other 15 as they were.
  pub pic_disable_irq_lem :
      (ports : Ports) (irq j : ℕ)
      → KeepsMask inb ports
      → irq < 16
      → j < 16
      → is_masked inb (pic_disable_irq inb irq ports) j
        ≡ (if irq == j then true else is_masked inb ports j)
  unfolding pic_disable_irq outb
  pic_disable_irq_lem ports irq j keeps hi hj =
      mask_change ports irq j _ true keeps hi hj (omega arith)
        (byte_bit-or _ _ _ (keeps.in_byte _) (line_bit-lt irq hi) (line_bit-lt j hj))

  -- When the controllers keep the masks that end `pic_remap`, afterwards the keyboard's line is the
  -- only one that is not held back.
  pub pic_remap_masks :
      (ports : Ports) (j : ℕ)
      → KeepsMask inb (pic_start ports)
      → KeepsMask inb ((pic1_data, 0xFD) ∷ pic_start ports)
      → j < 16
      → is_masked inb (pic_remap ports) j ≡ not (j == 1)
  unfolding pic_remap outb line_port
  pic_remap_masks ports j keeps keeps' hj = ground (
    arith,
    is_masked-write ((pic1_data, 0xFD) ∷ pic_start ports) 8 j 0xFF keeps' (omega arith),
    is_masked-write (pic_start ports) 0 j 0xFD keeps (omega arith),
    remap_bits j hj,
  )

  -- When the controllers keep their masks from the end of `pic_remap` on, enabling a line of the
  -- second one after it unmasks that line and leaves line 2 masked, the one by
  -- which the second controller reaches the processor.
  pub pic_enable_irq-pic_remap :
      (ports : Ports) (irq : ℕ)
      → KeepsMask inb (pic_start ports)
      → KeepsMask inb ((pic1_data, 0xFD) ∷ pic_start ports)
      → KeepsMask inb (pic_remap ports)
      → 8 ≤ irq
      → irq < 16
      → (is_masked inb (pic_enable_irq inb irq (pic_remap ports)) irq ≡ false)
        × (is_masked inb (pic_enable_irq inb irq (pic_remap ports)) 2 ≡ true)
  pic_enable_irq-pic_remap ports irq keeps keeps' keeps'' le lt = (
    ground (arith, pic_enable_irq_lem (pic_remap ports) irq irq keeps'' lt lt),
    ground (
      arith,
      pic_enable_irq_lem (pic_remap ports) irq 2 keeps'' lt (omega arith),
      pic_remap_masks ports 2 keeps keeps' (omega arith),
    ),
  )
