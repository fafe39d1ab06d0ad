-- ===== src/Sessions.antt =====
-- dwho/sessions: opaque sessions over a storage backend. `Ttl` and `Clock` are shared by the
-- in-process backend (`Memory`), the Redis backend (`Redis`) and the manager (`Manager`).
pub mod Ttl
pub mod Clock
pub mod Memory
pub mod Backend
pub mod Redis
pub mod Manager
