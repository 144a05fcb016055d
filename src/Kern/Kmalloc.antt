-- ===== src/Kern/Kmalloc.antt =====
-- The kernel heap: kern/kmalloc.c.
pub mod Defs
pub mod Tiling
pub mod Joining
pub mod Undo
pub mod Service
