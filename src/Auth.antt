-- ===== src/Auth.antt =====
-- Who is signed in: the roles of frontend/lib/auth.ts, and the session state of
-- frontend/components/auth/AuthProvider.tsx with its retries.
pub mod Roles
pub mod Provider
mod Tests
