-- ===== src/Server.antt =====
-- server/rbac and server/cursorstore: who may read which scope, and the handles of long cursors.
pub mod Rbac
pub mod Handles
