-- ===== src/Kern/Fault.antt =====
-- Page faults: kern/tlbex.c.
pub mod Alloc
pub mod Fresh
pub mod Cow
pub mod Copied
