-- ===== src/Preservation.antt =====
-- preservation/: from source claims to preservation risk.
pub mod Risk
