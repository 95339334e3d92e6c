-- ===== src/Platform.antt =====
-- platform/src: the backends that raise and answer page faults, one for each system. The calls of
-- the system are parameters.
pub mod Pages
pub mod Linux
pub mod Ipc
pub mod Mac
pub mod Windows
