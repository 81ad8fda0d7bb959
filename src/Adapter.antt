-- ===== src/Adapter.antt =====
-- The adapter that reports OpenSearch failures to GlitchTip: src/k8s_stack_tooling/opensearch_glitchtip
pub mod Types
pub mod Rows
pub mod State
pub mod Delivery
pub mod Poll
pub mod Policy
mod Examples
