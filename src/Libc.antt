-- ===== src/Libc.antt =====
-- The functions on memory and strings of lib/string.c, which the kernel and the user programs share.
pub mod Memory
pub mod Text
pub mod Copy
pub mod Fill
pub mod Number
pub mod RoundTrip
pub mod Digits
pub mod Reversal
