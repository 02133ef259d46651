-- ===== src/Policies.antt =====
-- src/cache_policies: what the policies share, the rule-based policies, and the adaptive controller.
pub mod Base
pub mod Ids
pub mod Heuristic
pub mod Hybrid
pub mod Learned
pub mod Dispatch
