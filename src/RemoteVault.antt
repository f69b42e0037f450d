-- ===== src/RemoteVault.antt =====
-- infra/remotevault/cache.go: what the client of a remote vault keeps of its answers.
pub mod Bodies
