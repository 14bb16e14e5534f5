-- ===== src/Provider.antt =====
-- src/provider.rs
pub mod Database
pub mod Transfer
pub mod Session
pub mod Create
pub mod Service
