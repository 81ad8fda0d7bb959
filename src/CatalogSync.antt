-- ===== src/CatalogSync.antt =====
-- The synchronisation of the OpenRouter catalogue: openrouter_catalog_sync/sync.py
pub mod Objects
pub mod Files
pub mod Paths
pub mod Policy
pub mod Selection
pub mod Fetch
mod Samples
mod Examples
