-- ===== src/Lazy.antt =====
-- rustfst/src/algorithms/lazy: machines that are computed on demand, and the tables and caches that
-- remember what has been computed.
pub mod StateTable
pub mod Cache
pub mod LazyFst
pub mod Compute
pub mod Tests
