-- ===== src/Proxy.antt =====
-- The request proxy, frontend/proxy.ts, with the header pack of frontend/lib/security-headers.ts.
pub mod Query
pub mod Headers
pub mod Requests
pub mod Tests
