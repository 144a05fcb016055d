-- ===== src/Kern.antt =====
-- The kernel: kern/ and the headers under include/ that it rests on.
pub mod Error
pub mod Mmu
pub mod Pmap
pub mod Kmalloc
pub mod Kmmap
pub mod Env
pub mod Syscall
pub mod Fault
pub mod Fork
pub mod Userspace
pub mod Board
pub mod Interrupt
pub mod Load
