-- ===== src/Slave.antt =====
-- The slave's end of the RPC path, in esp-hosted/slave/main.
pub mod Pserial
pub mod Config
pub mod Startup
pub mod Spi
