-- ===== src/Wire.antt =====
-- app/dnscore/wire.py: names, types, record data and messages.
pub mod Types
pub mod Name
pub mod Bytes
pub mod Rdata
pub mod Message
