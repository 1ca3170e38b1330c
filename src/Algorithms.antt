-- ===== src/Algorithms.antt =====
-- rustfst/src/algorithms: the algorithms on machines.
pub mod Loops
pub mod Relabel
pub mod Labels
pub mod Shape
pub mod Inversion
pub mod Projection
pub mod Tests
pub mod Queues
