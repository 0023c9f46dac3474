-- ===== src/Kernel/Samples.antt =====
-- The kernel as the loader leaves it, for the tests.
use zer0s.Prelude.{◌+◌, refl, arith, false}
use zer0s.Interrupts.Idt.{Handlers, gate}
use zer0s.Machine.Samples.{statics}
use zer0s.Kernel.{Kernel}
use zer0s.Kernel.Boot.{IsCold}

abbrev pub handlers : Handlers
handlers = record {
  table = 0x10000;
  isr = λ i. 0x20000 + i;
  irq = λ i. 0x30000 + i;
  syscall_handler = 0x40000;
  isr_default = 0x50000;
}

abbrev pub cold : Kernel
cold = record {
  idt = record {
    idt = λ v. gate 0 0 0;
    idtp = record { limit = 0; base = 0 };
    loaded = record { limit = 0; base = 0 };
  };
  keyboard = record {
    shift_pressed = false;
    ctrl_pressed = false;
    alt_pressed = false;
    caps_lock = false;
    num_lock = false;
    scroll_lock = false;
    dead_key = false;
    dead_char = 0;
    cmd_buffer = λ i. 0;
    cmd_pos = 0;
  };
  machine = statics;
}

pub cold-IsCold : IsCold cold
cold-IsCold = record {
  no_heap = refl;
  no_pages = refl;
  memory = λ i. omega arith;
  no_line = refl;
  no_accent = refl;
}
