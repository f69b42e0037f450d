-- ===== src/Semantic.antt =====
-- infra/semantic: the life cycle of a deleted note's vectors, the spending of a provider's budget, and the
-- wait for a note's index state.
pub mod Budget
pub mod Purge
pub mod Wait
