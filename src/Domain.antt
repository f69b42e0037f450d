-- ===== src/Domain.antt =====
-- core/domain: the data and the pure rules that every part of the program uses.
pub mod Value
pub mod Entities
pub mod Results
pub mod Path
pub mod Filter
pub mod Order
pub mod Tags
pub mod Patch
pub mod Related
