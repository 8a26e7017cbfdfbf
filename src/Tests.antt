-- ===== src/Tests.antt =====
-- Tests, and the theorems applied to concrete inputs.
mod World
mod Protocol
mod Sessions
mod CommandLine
mod Groups
mod Loading
mod Setup
mod Program
mod Memory
