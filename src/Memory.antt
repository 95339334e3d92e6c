-- ===== src/Memory.antt =====
-- memoryd: the daemon that serves RAM to other machines.
pub mod Raw
pub mod Slab
pub mod Tracker
pub mod Protocol
pub mod Session
