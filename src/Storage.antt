-- ===== src/Storage.antt =====
-- infrastructure/storage: what the storage backends share, and the vault over a directory of files.
pub mod Notes
pub mod Links
pub mod Graph
pub mod Local
pub mod Batch
