-- ===== src/Dpaiop.antt =====
-- The DPAIOP interface of the MC (flib/mc/fsl_dpaiop.h, flib/mc/fsl_dpaiop_cmd.h and
-- flib/mc/dpaiop.c).
pub mod Types
pub mod Commands
pub mod Responses
pub mod Calls
pub mod Decode
pub mod Server
