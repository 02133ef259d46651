-- ===== src/Features.antt =====
-- src/feature_engineering: what the learned policy sees of a block.
pub mod Extractor
pub mod Importance
pub mod Workload
