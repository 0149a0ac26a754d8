-- ===== src/Store.antt =====
-- pkg/files/store: the store of files.
pub mod File
pub mod Key
pub mod Service
pub mod Start
pub mod Advertised
pub mod Agreement
