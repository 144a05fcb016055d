-- ===== src/Kern/Kmmap.antt =====
-- Mappings of device memory into the kernel's address space: kern/kmmap.c.
pub mod Defs
pub mod FirstFit
pub mod RoundTrip
