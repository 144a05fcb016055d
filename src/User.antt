-- ===== src/User.antt =====
-- The user library: user/lib.
pub mod Pipe
