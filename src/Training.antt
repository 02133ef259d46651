-- ===== src/Training.antt =====
-- src/trainers: how the traces become training data.
pub mod Split
