-- ===== src/Ecc.antt =====
-- yaffs_ecc.c: the SmartMedia error correcting code over 256-byte blocks, and its variant over
-- arbitrary lengths that protects the packed tags.
pub mod Table
pub mod Parity
pub mod Block
pub mod Other
mod Tests
