-- ===== src/Interrupts.antt =====
-- The interrupt machinery of kernel/arch/x86_64 and kernel/core/syscall.c: descriptor table,
-- interrupt controller, exception handler and system calls.
pub mod Idt
pub mod Pic
pub mod Masks
pub mod Isr
pub mod Syscall
mod Tests
