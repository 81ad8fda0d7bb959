-- ===== src/Recovery.antt =====
-- The offline OpenBao recovery kit:
-- cli_tools/openbao_stack_setup/src/openbao_stack_setup/recovery.py
pub mod Kit
pub mod Operations
pub mod Validity
pub mod Lifecycle
pub mod Files
pub mod Load
pub mod Accepted
pub mod Saved
mod Examples
