-- ===== src/User/Pipe.antt =====
-- Pipes of user/lib/pipe.c between one reader and one writer.
pub mod Steps
pub mod State
pub mod Reader
pub mod Writer
pub mod Order
pub mod Calls
