-- ===== src/Tests.antt =====
-- Runs of the model at inputs that can be followed in the source, and the theorems at such inputs.
mod Index
mod Retry
mod Metric
mod TeamDirectory
mod Expected
mod Schema
mod Directory
mod Formatter
mod Governance
mod Order
mod Zpkg
mod RequireSend
mod SchemaIr
mod EslintPlugin
