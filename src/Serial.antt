-- ===== src/Serial.antt =====
-- The host's virtual serial interface, one module per layer: the TLV envelope
-- (host/drivers/virtual_serial_if), the driver over it and the low-level interface under it
-- (host/drivers/serial).
pub mod Tlv
pub mod Drv
pub mod Ll
pub mod If
