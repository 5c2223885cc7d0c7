-- ===== src/ProductionTools.antt =====
-- internal/productiontools: the tools for production.
pub mod RenderJobs
pub mod Ledger
pub mod Output
