-- ===== src/Auth.antt =====
-- auth/: rotating refresh credentials.
pub mod Refresh
