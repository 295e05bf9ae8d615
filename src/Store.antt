-- ===== src/Store.antt =====
-- `TokenStore` of experiments/preprocessed-pbmo/src/token.rs.
pub mod World
pub mod Snapshot
pub mod Lifecycle
pub mod Operations
