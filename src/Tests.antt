-- ===== src/Tests.antt =====
-- Concrete states of the kernel, runs of its operations on them, and the theorems applied to them.
pub mod Pages
pub mod Blocks
pub mod Processes
pub mod Queues
pub mod Files
pub mod Faults
pub mod Texts
pub mod Pipes
pub mod Devices
pub mod Programs
