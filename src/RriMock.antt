-- ===== src/RriMock.antt =====
-- The in-process RRI mock server: pkg/mock/rri. `Kv` is its message format (kv.go), `Server` the
-- handler of a connection (server.go, fault.go).
pub mod Kv
pub mod Server
