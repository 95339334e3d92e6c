-- ===== src/Common.antt =====
-- common/: what the daemons and the client share.
pub mod Crc
