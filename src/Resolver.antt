-- ===== src/Resolver.antt =====
-- app/dnscore/resolver.py: the resolution pipeline.
pub mod Host
pub mod State
pub mod Clients
pub mod Zones
pub mod Rewrite
pub mod Forward
pub mod Transfer
pub mod Pipeline
