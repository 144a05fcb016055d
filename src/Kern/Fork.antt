-- ===== src/Kern/Fork.antt =====
-- Copy-on-write duplication: kern/fork.c.
pub mod Share
pub mod Protect
