-- ===== src/Runtime.antt =====
-- The saved choices of the inference runtime manager: installer/assignments.py and pending.py
pub mod Assignments
pub mod Changes
mod Examples
