-- ===== src/Benchmarks.antt =====
-- src/benchmarks: the load that the server is put under.
pub mod Stress
