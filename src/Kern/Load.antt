-- ===== src/Kern/Load.antt =====
-- Programs and the first processes: lib/elfloader.c, with env_init, load_icode and env_create of kern/env.c.
pub mod Segment
pub mod Create
pub mod Image
