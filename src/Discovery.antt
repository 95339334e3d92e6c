-- ===== src/Discovery.antt =====
-- discoveryd: which hosts are on the LAN.
pub mod Peers
pub mod Announce
