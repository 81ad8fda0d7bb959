-- ===== src/Jobs.antt =====
-- One-shot Kubernetes Jobs: src/k8s_stack_tooling/api/jobs.py
pub mod Submit
pub mod Submission
pub mod Wait
pub mod Waiting
pub mod Summary
pub mod Summaries
mod Examples
