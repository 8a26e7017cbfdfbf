-- ===== src/Cmd.antt =====
-- The command line, src/aiop_cmd.c and include/aiop_cmd.h.
pub mod Types
pub mod Args
pub mod Options
pub mod Handlers
