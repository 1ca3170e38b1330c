-- ===== src/Paths/Tests.antt =====
-- The paths of a machine with the transition 5:6 to its final state.
use rustfst.Base.{ℕ, ◌≡◌, ◌↔◌, refl, Bool, true, [], ◌∷◌, none, some, ok}
use rustfst.Weights.Plain.{boolean_weight}
use rustfst.Fst.{VectorFst, new_state}
use rustfst.Props.Masks.{null_properties}
use rustfst.Paths.{
  FstPath, default, paths_iter, extensions, finished, visit, next, add_to_path, add_weight,
}
use rustfst.Paths.Origin.{Run, Yields, NeverFails}
use rustfst.Paths.Complete.{paths_iter_lem}

abbrev pub one_tr : VectorFst Bool
one_tr = record {
  states =
      record {
        final_weight = none;
        trs = record { ilabel = 5; olabel = 6; weight = true; nextstate = 1 } ∷ [];
        niepsilons = 0;
        noepsilons = 0;
      }
      ∷ record new_state { final_weight = some true }
      ∷ [];
  start_state = some 0;
  properties = null_properties;
}

abbrev pub five_six : FstPath Bool
five_six = record { ilabels = 5 ∷ []; olabels = 6 ∷ []; weight = true }

next-one_tr :
    next ⦃sr = boolean_weight⦄ one_tr 2 (paths_iter ⦃sr = boolean_weight⦄ one_tr)
    ≡ some (ok (some five_six, []))
unfolding next visit extensions finished add_to_path add_weight paths_iter
next-one_tr = refl

pub boolean-NeverFails : NeverFails boolean_weight
boolean-NeverFails a b = (_, refl)

paths_iter_example :
    Yields ⦃sr = boolean_weight⦄ one_tr (paths_iter ⦃sr = boolean_weight⦄ one_tr) five_six ↔ (
      (start : ℕ) × (one_tr.start_state ≡ some start)
      × Run ⦃sr = boolean_weight⦄ one_tr start (default ⦃sr = boolean_weight⦄) five_six)
paths_iter_example = paths_iter_lem ⦃sr = boolean_weight⦄ one_tr boolean-NeverFails five_six
