-- ===== src/Evaluation.antt =====
-- src/evaluators: how the answers and the policies are judged.
pub mod Lcs
pub mod Distance
pub mod Counter
pub mod Quality
pub mod Pareto
pub mod Latency
pub mod System
pub mod Report
