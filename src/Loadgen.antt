-- ===== src/Loadgen.antt =====
-- loadgen/src/main.rs: the load generator.
pub mod Reader
pub mod Queue
pub mod Request
pub mod Exchange
