-- ===== src/Fst/Sound.antt =====
-- The operations of `MutableFst` and the truth of the properties that they leave.
pub mod Deleted
pub mod Same
pub mod AddTr
pub mod Finals
pub mod States
pub mod Compat
