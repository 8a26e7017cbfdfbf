-- ===== src/Mc.antt =====
-- The Management Complex (MC) transport: the 64-byte command, its bit fields, and the exchange of
-- commands over a portal (flib/mc/fsl_mc_cmd.h, flib/mc/fsl_mc_sys.h, flib/mc/mc_sys.c).
pub mod Wire
pub mod Portal
