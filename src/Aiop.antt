-- ===== src/Aiop.antt =====
-- The AIOP library, src/aiop_lib.c and include/aiop_lib.h.
pub mod Types
pub mod Session
pub mod Load
pub mod Ledger
pub mod Setup
pub mod State
