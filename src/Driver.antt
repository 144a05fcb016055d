-- ===== src/Driver.antt =====
-- Drivers: the character queue of driver/serial.
pub mod CharQueue
pub mod Device
pub mod Plic
