-- ===== src/Lazy/Tests.antt =====
-- A machine in memory behind a cache.
use rustfst.Base.{ℕ, ◌≡◌, refl, Bool, none, some, Result, ok, err, state_budget, arith}
use rustfst.Weights.Plain.{boolean_weight}
use rustfst.Fst.{VectorFst, trs_of, final_of, num_states}
use rustfst.Fst.Mutate.{new}
use rustfst.Fst.Tests.{with_loop}
use rustfst.Lazy.Cache.SimpleVec.{
  SimpleVecCache, simple_vec_cache, simple_vec_cache-IsFstCache, cleared, get_start, insert_start,
  insert_trs, insert_final_weight,
}
use rustfst.Lazy.Cache.SimpleVec as Vec
use rustfst.Lazy.LazyFst.{FstOp, LazyFst, start, get_trs, final_weight}
use rustfst.Lazy.LazyFst.Cached.{IsStable, Agrees, Refines, lazy_fst_lem}
use rustfst.Lazy.Compute.{compute_bounded}
use rustfst.Lazy.Compute.Rounds.{compute_bounded_ends}
use rustfst.Lazy.Compute.Budgets.{compute_bounded_free}

-- An operation without state that reads a machine in memory.
abbrev reading : FstOp Bool
reading = record {
  State = Unit;
  compute_start = λ u. ok (with_loop.start_state, u);
  compute_trs = λ u s. ok (trs_of with_loop s, u);
  compute_final_weight = λ u s. ok (final_of with_loop s, u);
  properties = λ u. with_loop.properties;
}

abbrev fresh : LazyFst reading simple_vec_cache
fresh = record { cache = cleared; op = tt }

reading-IsStable : IsStable reading
reading-IsStable = record {
  start_stays = λ s t u x e l. again e;
  trs_stay = λ s t u i l e k. again e;
  final_stays = λ s t u i w e k. again e;
}
  where
    again :
        {A : Type 0} {a b : A} {s t u v : Unit {0}}
        → ◌≡◌ {A = Result (A × Unit {0})} (ok (a, s)) (ok (b, t))
        → ◌≡◌ {A = Result (A × Unit {0})} (ok (a, u)) (ok (b, v))
    again e = e

fresh-Agrees : Agrees reading simple_vec_cache fresh
unfolding get_start Vec.get_trs Vec.get_final_weight
fresh-Agrees = record {
  starts = λ x h. ground arith;
  trs = λ i l h. ground arith;
  finals = λ i w h. ground arith;
}

lazy_fst_example :
    Refines reading simple_vec_cache
      (ok (with_loop.start_state, tt))
      (start reading simple_vec_cache fresh)
    × ((i : ℕ)
        → Refines reading simple_vec_cache
            (ok (trs_of with_loop i, tt))
            (get_trs reading simple_vec_cache fresh i))
    × ((i : ℕ)
        → Refines reading simple_vec_cache
            (ok (final_of with_loop i, tt))
            (final_weight reading simple_vec_cache fresh i))
lazy_fst_example =
    lazy_fst_lem reading simple_vec_cache reading-IsStable simple_vec_cache-IsFstCache fresh
      fresh-Agrees

compute_bounded_ends_example :
    (r : Result (VectorFst Bool)) × (compute_bounded ⦃sr = boolean_weight⦄ reading simple_vec_cache
        3
        (some 1)
        none
        fresh
      ≡ some r)
compute_bounded_ends_example =
    compute_bounded_ends ⦃sr = boolean_weight⦄ reading simple_vec_cache 1 3 none fresh (omega arith)

over_budget :
    compute_bounded ⦃sr = boolean_weight⦄ reading simple_vec_cache 3 (some 1) none fresh
    ≡ some (err state_budget)
unfolding compute_bounded with_loop get_start Vec.get_trs insert_start
over_budget = refl

abbrev made : VectorFst Bool
unfolding compute_bounded with_loop get_start Vec.get_trs insert_start insert_trs
    Vec.get_final_weight insert_final_weight
made =
    elim (compute_bounded ⦃sr = boolean_weight⦄ reading simple_vec_cache 4 (some 2) (some 2)
      fresh) [ some (ok fst) ↦ fst | _ ↦ new ]

compute_bounded_free_example :
    compute_bounded ⦃sr = boolean_weight⦄ reading simple_vec_cache 4 none none fresh
    ≡ some (ok made)
unfolding compute_bounded with_loop get_start Vec.get_trs insert_start insert_trs
    Vec.get_final_weight insert_final_weight
compute_bounded_free_example =
    compute_bounded_free ⦃sr = boolean_weight⦄ reading simple_vec_cache 4 (some 2) (some 2) fresh
      made refl

made-num_states : num_states made ≡ 2
unfolding compute_bounded with_loop get_start Vec.get_trs insert_start insert_trs
    Vec.get_final_weight insert_final_weight
made-num_states = refl
