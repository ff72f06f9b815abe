-- ===== src/Dnssec.antt =====
-- src/dns/dnssec.rs: keys, signatures and type bitmaps.
pub mod Bitmap
pub mod Names
pub mod Hex
pub mod Digits
pub mod Key
pub mod Times
pub mod Load
pub mod Print
pub mod Signing
pub mod Fields
pub mod Validation
pub mod Tests
