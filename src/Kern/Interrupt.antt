-- ===== src/Kern/Interrupt.antt =====
-- Interrupts that processes handle: kern/env_interrupt.c, with handle_plic_interrupt of kern/plic.c and
-- do_clock and do_interrupt of kern/traps.c.
pub mod Defs
pub mod Queue
