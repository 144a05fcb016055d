-- ===== src/Kern/Pmap.antt =====
-- Physical pages and page tables: kern/pmap.c and include/pmap.h.
pub mod Mem
pub mod Walk
pub mod Map
pub mod Range
pub mod Supply
pub mod Cells
pub mod Path
pub mod Made
pub mod WalkLaws
pub mod Insert
pub mod InsertLaws
pub mod RoundTrip
pub mod Safe
