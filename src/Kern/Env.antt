-- ===== src/Kern/Env.antt =====
-- Environments (processes) and their scheduling: kern/env.c, kern/sched.c and include/env.h.
pub mod State
pub mod Asid
pub mod Table
pub mod Release
pub mod Sched
pub mod Queue
pub mod Turns
pub mod Fairness
pub mod RoundRobin
pub mod Permission
pub mod Ids
pub mod Safe
pub mod Maps
