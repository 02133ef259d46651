-- ===== src/Serving.antt =====
-- src/serving: the bookkeeping of requests in front of the engine.
pub mod Router
pub mod Requests
pub mod Outputs
pub mod Memory
pub mod Generation
pub mod Api
