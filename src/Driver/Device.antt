-- ===== src/Driver/Device.antt =====
-- The registry of devices: kern/device.c.
pub mod Defs
pub mod Mapped
