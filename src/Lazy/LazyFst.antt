-- ===== src/Lazy/LazyFst.antt =====
-- rustfst/src/algorithms/lazy/{fst_op,lazy_fst}.rs: a machine whose states are computed by an operation
-- when they are asked for, and kept in a cache.
pub mod Cached
use rustfst.Base.{ℕ, ◌≡◌, List, Option, none, some, Result, ok, err, panic, ◌>>=◌}
use rustfst.Tr.{Tr}
use rustfst.Props.{FstProperties}
use rustfst.Lazy.Cache.{CacheStatus, not_computed, computed, FstCache}

-- The trait `FstOp`. An operation may change its state, such as a table of the states it has met. A
-- failing call gives no state: what the source's call adds to the table before it fails is not followed.
pub record FstOp (W : Type 0) : Type 1 where
  pub State : Type 0
  pub compute_start : State → Result (Option ℕ × State)
  pub compute_trs : State → ℕ → Result (List (Tr W) × State)
  pub compute_final_weight : State → ℕ → Result (Option W × State)
  pub properties : State → FstProperties

module _ {W : Type 0} (o : FstOp W) (c : FstCache W) where
  pub record LazyFst : Type 0 where
    pub cache : c.Cache
    pub op : o.State

  -- A failure of `compute_start` panics.
  unfoldable pub start : LazyFst → Result (Option ℕ × LazyFst)
  start fst = elim (c.get_start fst.cache) [
    | computed s ↦ ok (s, fst)
    | not_computed ↦ elim (o.compute_start fst.op) [
      | err e ↦ err panic
      | ok (s, op) ↦ ok (s, record { cache = c.insert_start fst.cache s; op = op })
    ]
  ]

  unfoldable pub final_weight : LazyFst → ℕ → Result (Option W × LazyFst)
  final_weight fst state_id = elim (c.get_final_weight fst.cache state_id) [
    | computed weight ↦ ok (weight, fst)
    | not_computed ↦ o.compute_final_weight fst.op state_id >>= λ (weight, op).
        ok (weight, record { cache = c.insert_final_weight fst.cache state_id weight; op = op })
  ]

  unfoldable pub get_trs : LazyFst → ℕ → Result (List (Tr W) × LazyFst)
  get_trs fst state_id = elim (c.get_trs fst.cache state_id) [
    | computed trs ↦ ok (trs, fst)
    | not_computed ↦ o.compute_trs fst.op state_id >>= λ (trs, op).
        ok (trs, record { cache = c.insert_trs fst.cache state_id trs; op = op })
  ]
