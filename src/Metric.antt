-- ===== src/Metric.antt =====
-- scripts/admit-rate-limit-metric.mjs: admission of metric labels against the v1 contract.
pub mod Contract
pub mod Labels
pub mod Trust
pub mod Admission
