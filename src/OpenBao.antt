-- ===== src/OpenBao.antt =====
-- openbao_stack_setup: the records of OpenBao and credentials.py
pub mod Kv
pub mod Upsert
pub mod Credentials
mod Examples
