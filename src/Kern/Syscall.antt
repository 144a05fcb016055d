-- ===== src/Kern/Syscall.antt =====
-- System calls: kern/syscall_all.c.
pub mod Guard
pub mod Process
pub mod Memory
pub mod Create
pub mod Device
pub mod Table
pub mod Ipc
pub mod StatusLaws
pub mod QueueLaws
pub mod Blocking
