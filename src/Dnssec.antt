-- ===== src/Dnssec.antt =====
-- app/dnscore/dnssec.py: base32hex, NSEC and NSEC3 data, key tags and the bytes that are signed.
-- SHA-1, SHA-256 and ECDSA are Python's and the cryptography package's: they are parameters.
pub mod Base32
pub mod KeyTag
pub mod Names
pub mod Bitmap
pub mod Signing
