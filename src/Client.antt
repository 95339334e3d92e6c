-- ===== src/Client.antt =====
-- memclient: memory on peers behind a local cache, and the data structures of the client.
pub mod Lru
pub mod Arena
pub mod Act
pub mod Peers
pub mod Link
pub mod Remote
pub mod Transfer
pub mod Memory
pub mod Heap
pub mod Requests
pub mod Hosted
pub mod Sample
mod Tests
