-- ===== src/Fst/Tests.antt =====
-- A machine over Booleans, built call by call.
use rustfst.Base.{◌≡◌, refl, Bool, true, [], ◌∷◌, none, ok, err, no_state, arith}
use rustfst.Tr.{Tr}
use rustfst.Weights.Plain.{boolean_weight}
use rustfst.Fst.{VectorFst, num_input_epsilons, num_output_epsilons, num_trs, get_trs, final_weight}
use rustfst.Fst.Mutate.{
  new, set_start, set_start_unchecked, set_final, set_final_unchecked, delete_final_weight,
  delete_final_weight_unchecked, add_state, add_states, add_tr, add_tr_unchecked, delete_trs,
  pop_trs, take_final_weight, clear_trs,
}
use rustfst.Props.{Flag, FstProperties, mask, not_top_sorted}
use rustfst.Props.Compat.{compat_properties}
use rustfst.Fst.Sound.Compat.{compat_of_sound}
use rustfst.Fst.Missing.{FailsWhereMissing, missing_state_lem}
use rustfst.Fst.DelStates.{del_states, del_state}
use rustfst.Fst.DelStates.Whole.{Deletes, del_states_lem}
use rustfst.Fst.Valid.{IsValid}
use rustfst.Fst.Built.{Built, start, by_start, by_states, by_tr, built_lem}
use rustfst.Fst.Meaning.{Holds, IsSound}
use rustfst.Fst.Iter.{with_iter, set_tr_unchecked, tr_iter_mut}
use rustfst.Fst.Iter.Replace.{set_tr-IsValid}
use rustfst.Fst.Iter.Sound.{set_tr-IsSound}
use rustfst.Fst.Sound.AddTr.{add_tr-IsSound}
use rustfst.Fst.Sound.Finals.{set_final-IsSound, delete_final_weight-IsSound}
use rustfst.Fst.Sound.States.{set_start-IsSound, add_states-IsSound, delete_trs-IsSound}

abbrev pub loop_tr : Tr Bool
loop_tr = record { ilabel = 7; olabel = 0; weight = true; nextstate = 1 }

abbrev pub forth_tr : Tr Bool
forth_tr = record { ilabel = 5; olabel = 6; weight = true; nextstate = 1 }

abbrev empty_fst : VectorFst Bool
empty_fst = new

abbrev two_states : VectorFst Bool
unfolding add_states
two_states = add_states empty_fst 2

abbrev started : VectorFst Bool
unfolding add_states set_start_unchecked
started = set_start_unchecked two_states 0

abbrev with_tr : VectorFst Bool
unfolding add_states set_start_unchecked add_tr_unchecked
with_tr = add_tr_unchecked ⦃sr = boolean_weight⦄ started 0 forth_tr

unfoldable pub with_loop : VectorFst Bool
unfolding add_states set_start_unchecked add_tr_unchecked
with_loop = add_tr_unchecked ⦃sr = boolean_weight⦄ with_tr 1 loop_tr

add_tr-missing : add_tr ⦃sr = boolean_weight⦄ started 2 loop_tr ≡ err (no_state 2)
unfolding add_tr add_states set_start_unchecked with_loop
add_tr-missing = refl

epsilons-counted : num_input_epsilons with_loop 1 ≡ ok 0
unfolding num_input_epsilons add_states set_start_unchecked add_tr_unchecked with_loop
epsilons-counted = refl

built : Built ⦃sr = boolean_weight⦄ with_loop
unfolding add_states set_start set_start_unchecked add_tr_unchecked add_tr with_loop
built =
    by_tr 1 loop_tr (by_tr 0 forth_tr (by_start 0 (by_states 2 start refl) refl) (omega arith) refl)
      (omega arith) refl

built_lem_example : IsValid with_loop × IsSound ⦃sr = boolean_weight⦄ with_loop
built_lem_example = built_lem ⦃sr = boolean_weight⦄ built

pub with_loop-IsValid : IsValid with_loop
with_loop-IsValid = (built_lem ⦃sr = boolean_weight⦄ built).0

pub with_loop-IsSound : IsSound ⦃sr = boolean_weight⦄ with_loop
with_loop-IsSound = (built_lem ⦃sr = boolean_weight⦄ built).1

add_tr-IsSound_example :
    IsSound ⦃sr = boolean_weight⦄ (add_tr_unchecked ⦃sr = boolean_weight⦄ with_loop 1 forth_tr)
unfolding add_states set_start_unchecked add_tr_unchecked add_tr with_loop
add_tr-IsSound_example =
    add_tr-IsSound ⦃sr = boolean_weight⦄ with_loop _ 1 forth_tr with_loop-IsSound refl

set_final-IsSound_example :
    IsSound ⦃sr = boolean_weight⦄ (set_final_unchecked ⦃sr = boolean_weight⦄ with_loop 1 true)
unfolding add_states set_start_unchecked add_tr_unchecked set_final_unchecked set_final with_loop
set_final-IsSound_example =
    set_final-IsSound ⦃sr = boolean_weight⦄ with_loop _ 1 true with_loop-IsSound refl

delete_final_weight-IsSound_example :
    IsSound ⦃sr = boolean_weight⦄ (delete_final_weight_unchecked ⦃sr = boolean_weight⦄ with_loop 1)
unfolding add_states set_start_unchecked add_tr_unchecked delete_final_weight_unchecked
    delete_final_weight with_loop
delete_final_weight-IsSound_example =
    delete_final_weight-IsSound ⦃sr = boolean_weight⦄ with_loop _ 1 with_loop-IsSound refl

set_start-IsSound_example : IsSound ⦃sr = boolean_weight⦄ (set_start_unchecked with_loop 1)
unfolding add_states set_start_unchecked add_tr_unchecked set_start with_loop
set_start-IsSound_example =
    set_start-IsSound ⦃sr = boolean_weight⦄ with_loop _ 1 with_loop-IsSound refl

add_states-IsSound_example :
    IsSound ⦃sr = boolean_weight⦄ (add_state with_loop).0
    × IsSound ⦃sr = boolean_weight⦄ (add_states with_loop 3)
add_states-IsSound_example = add_states-IsSound ⦃sr = boolean_weight⦄ with_loop 3 with_loop-IsSound

abbrev cleared : VectorFst Bool
unfolding add_states set_start_unchecked add_tr_unchecked with_loop
cleared =
    clear_trs with_loop 0
      (record { final_weight = none; trs = forth_tr ∷ []; niepsilons = 0; noepsilons = 0 })

delete_trs-IsSound_example : IsSound ⦃sr = boolean_weight⦄ cleared
unfolding add_states set_start_unchecked add_tr_unchecked delete_trs with_loop
delete_trs-IsSound_example =
    delete_trs-IsSound ⦃sr = boolean_weight⦄ with_loop _ 0 with_loop-IsSound refl

-- The start state goes, with the transition from it, and state 1 is the new state 0.
del_states_example :
    (g : VectorFst Bool) × (del_states with_loop (0 ∷ []) ≡ ok g) × Deletes with_loop (0 ∷ []) g
unfolding with_loop
del_states_example =
    del_states_lem with_loop (0 ∷ []) with_loop-IsValid (omega arith) (omega arith, tt)

set_tr-IsSound_example :
    IsSound ⦃sr = boolean_weight⦄
      (with_iter with_loop 1 (λ it. set_tr_unchecked ⦃sr = boolean_weight⦄ it 0 forth_tr))
unfolding with_loop
set_tr-IsSound_example =
    set_tr-IsSound ⦃sr = boolean_weight⦄ with_loop 1 0 loop_tr forth_tr with_loop-IsSound refl

set_tr-IsValid_example :
    IsValid (with_iter with_loop 1 (λ it. set_tr_unchecked ⦃sr = boolean_weight⦄ it 0 forth_tr))
unfolding with_loop
set_tr-IsValid_example =
    set_tr-IsValid ⦃sr = boolean_weight⦄ with_loop 1 0 loop_tr forth_tr with_loop-IsValid refl
      (omega arith)

missing_state_example :
    FailsWhereMissing with_loop 2 (set_start with_loop 2)
    × FailsWhereMissing with_loop 2 (set_final ⦃sr = boolean_weight⦄ with_loop 2 true)
    × FailsWhereMissing with_loop 2 (delete_final_weight ⦃sr = boolean_weight⦄ with_loop 2)
    × FailsWhereMissing with_loop 2 (take_final_weight ⦃sr = boolean_weight⦄ with_loop 2)
    × FailsWhereMissing with_loop 2 (add_tr ⦃sr = boolean_weight⦄ with_loop 2 loop_tr)
    × FailsWhereMissing with_loop 2 (delete_trs with_loop 2)
    × FailsWhereMissing with_loop 2 (pop_trs with_loop 2)
    × FailsWhereMissing with_loop 2
        (tr_iter_mut with_loop 2 (λ it. set_tr_unchecked ⦃sr = boolean_weight⦄ it 0 forth_tr))
    × FailsWhereMissing with_loop 2 (del_state with_loop 2)
    × FailsWhereMissing with_loop 2 (final_weight with_loop 2)
    × FailsWhereMissing with_loop 2 (num_trs with_loop 2)
    × FailsWhereMissing with_loop 2 (get_trs with_loop 2)
    × FailsWhereMissing with_loop 2 (num_input_epsilons with_loop 2)
    × FailsWhereMissing with_loop 2 (num_output_epsilons with_loop 2)
missing_state_example =
    missing_state_lem ⦃sr = boolean_weight⦄ with_loop 2 true loop_tr
      (λ it. set_tr_unchecked ⦃sr = boolean_weight⦄ it 0 forth_tr)

abbrev looped : FstProperties
looped = mask (not_top_sorted ∷ [])

looped-Holds : (flag : Flag) → looped flag ≡ true → Holds ⦃sr = boolean_weight⦄ flag with_loop
unfolding with_loop
looped-Holds not_top_sorted h = (1, 0, loop_tr, refl, omega arith)
looped-Holds flag h = absurd (ground arith)

compat_of_sound_example : compat_properties with_loop.properties looped ≡ true
compat_of_sound_example =
    compat_of_sound ⦃sr = boolean_weight⦄ with_loop with_loop.properties looped with_loop-IsSound
      looped-Holds
