-- ===== src/Server.antt =====
-- The server-side fetches: frontend/lib/server-fetch.ts with its sanitised log entries, and the
-- session check of frontend/lib/auth-server.ts on top of it.
pub mod Redaction
pub mod Fetch
pub mod Session
mod Tests
