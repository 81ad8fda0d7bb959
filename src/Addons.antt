-- ===== src/Addons.antt =====
-- The addons: the checks of addons/validation.py
pub mod Graph
pub mod Resource
pub mod Check
pub mod Producers
