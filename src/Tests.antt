-- ===== src/Tests.antt =====
-- Runs of the model at concrete inputs: one for each result, and the data that they share.
mod Fixtures
mod Domain
mod Requests
mod Federated
mod Promotion
mod Cursors
mod Caches
mod Storage
mod Watching
mod Searches
