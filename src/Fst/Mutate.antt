-- ===== src/Fst/Mutate.antt =====
-- rustfst/src/fst_impls/vector_fst/mutable_fst.rs: the operations that change a machine. The unsafe
-- variants are undefined out of range in the source, and change nothing here.
use rustfst.Base.{
  ℕ, suc, ◌-◌, ◌==◌, ltb, u32, if◌then◌else◌, List, [], ◌∷◌, ◌++◌, length, get_elem?, set,
  replicate, Option, none, some, Result,
}
use rustfst.Tr.{Tr, eps_label}
use rustfst.Weights.{Semiring}
use rustfst.Props.{FstProperties, ◌∪◌, ◌∩◌, ◌∖◌}
use rustfst.Props.Masks.{null_properties}
use rustfst.Props.Update.{
  set_start_properties, set_final_properties, add_state_properties, add_tr_properties,
  delete_trs_properties, delete_all_states_properties,
}
use rustfst.Fst.{VectorFstState, VectorFst, new_state, increment_num_epsilons, on_state}

module _ {ℓ} {W : Type ℓ} where
  abbrev pub new : VectorFst W
  new = record { states = []; start_state = none; properties = null_properties }

  -- `get_unchecked_mut`, and what is done with the state.
  abbrev pub on_state_unchecked : VectorFst W → ℕ → (VectorFstState W → VectorFst W) → VectorFst W
  on_state_unchecked f id change = elim (get_elem? f.states id) [ none ↦ f | some st ↦ change st ]

  unfoldable pub set_start_unchecked : VectorFst W → ℕ → VectorFst W
  set_start_unchecked f id = record f {
    start_state = some id;
    properties = set_start_properties f.properties;
  }

  unfoldable pub set_start : VectorFst W → ℕ → Result (VectorFst W)
  unfolding set_start_unchecked
  set_start f id = on_state f id (λ _. set_start_unchecked f id)

  -- The machine, and the number of its new state.
  unfoldable pub add_state : VectorFst W → VectorFst W × ℕ
  add_state f = (
    record f {
      states = f.states ++ new_state ∷ [];
      properties = add_state_properties f.properties;
    },
    u32 (length f.states),
  )

  unfoldable pub add_states : VectorFst W → ℕ → VectorFst W
  add_states f n = record f {
    states = f.states ++ replicate n new_state;
    properties = add_state_properties f.properties;
  }

  unfoldable pub del_all_states : VectorFst W → VectorFst W
  del_all_states f = record f {
    states = [];
    start_state = none;
    properties = delete_all_states_properties;
  }

  abbrev pub clear_trs : VectorFst W → ℕ → VectorFstState W → VectorFst W
  clear_trs f id st = record f {
    states = set f.states id (record st { trs = []; niepsilons = 0; noepsilons = 0 });
    properties = delete_trs_properties f.properties;
  }

  unfoldable pub delete_trs : VectorFst W → ℕ → Result (VectorFst W)
  delete_trs f id = on_state f id (clear_trs f id)

  unfoldable pub pop_trs : VectorFst W → ℕ → Result (VectorFst W × List (Tr W))
  pop_trs f id = on_state f id (λ st. (clear_trs f id st, st.trs))

  unfoldable pub set_properties : VectorFst W → FstProperties → VectorFst W
  set_properties f props = record f { properties = props }

  unfoldable pub set_properties_with_mask :
      VectorFst W → FstProperties → FstProperties → VectorFst W
  set_properties_with_mask f props mask = record f {
    properties = f.properties ∖ mask ∪ mask ∩ props;
  }

  -- `trs[trs.len() - 2]`, where there are two transitions.
  abbrev pub second_last? : List (Tr W) → Option (Tr W)
  second_last? trs = if ltb 1 (length trs) then get_elem? trs (length trs - 2) else none

  abbrev pub last? : List (Tr W) → Option (Tr W)
  last? trs = get_elem? trs (length trs - 1)

module _ {ℓ} {W : Type ℓ} ⦃sr : Semiring W⦄ where
  -- Replace the final weight of a state, `none` to delete it.
  abbrev pub put_final : VectorFst W → ℕ → Option W → VectorFstState W → VectorFst W
  put_final f id w st = record f {
    states = set f.states id (record st { final_weight = w });
    properties = set_final_properties f.properties st.final_weight w;
  }

  unfoldable pub set_final : VectorFst W → ℕ → W → Result (VectorFst W)
  set_final f id w = on_state f id (put_final f id (some w))

  unfoldable pub set_final_unchecked : VectorFst W → ℕ → W → VectorFst W
  set_final_unchecked f id w = on_state_unchecked f id (put_final f id (some w))

  unfoldable pub delete_final_weight : VectorFst W → ℕ → Result (VectorFst W)
  delete_final_weight f id = on_state f id (put_final f id none)

  unfoldable pub delete_final_weight_unchecked : VectorFst W → ℕ → VectorFst W
  delete_final_weight_unchecked f id = on_state_unchecked f id (put_final f id none)

  unfoldable pub take_final_weight : VectorFst W → ℕ → Result (VectorFst W × Option W)
  take_final_weight f id = on_state f id (λ st. (put_final f id none st, st.final_weight))

  -- `update_properties_after_add_tr` for the state's transitions `trs`.
  unfoldable pub properties_after_add_tr : FstProperties → ℕ → List (Tr W) → FstProperties
  properties_after_add_tr props state trs = elim (last? trs) [
    | none ↦ props
    | some new_tr ↦ add_tr_properties props state new_tr (second_last? trs)
  ]

  abbrev pub push_tr : VectorFst W → ℕ → Tr W → VectorFstState W → VectorFst W
  push_tr f source tr st =
      let st' = record (increment_num_epsilons st tr) { trs = st.trs ++ tr ∷ [] } in
      record f {
        states = set f.states source st';
        properties = properties_after_add_tr f.properties source st'.trs;
      }

  unfoldable pub add_tr : VectorFst W → ℕ → Tr W → Result (VectorFst W)
  unfolding properties_after_add_tr increment_num_epsilons
  add_tr f source tr = on_state f source (push_tr f source tr)

  unfoldable pub add_tr_unchecked : VectorFst W → ℕ → Tr W → VectorFst W
  unfolding properties_after_add_tr increment_num_epsilons
  add_tr_unchecked f source tr = on_state_unchecked f source (push_tr f source tr)

  -- The loop of `set_trs_unchecked` over the new transitions.
  unfoldable pub add_all_properties :
      FstProperties → ℕ → Option (Tr W) → List (Tr W) → FstProperties
  add_all_properties props source prev [] = props
  add_all_properties props source prev (tr ∷ trs) =
      add_all_properties (add_tr_properties props source tr prev) source (some tr) trs

abbrev pub count_label {ℓ} : {W : Type ℓ} → (Tr W → ℕ) → List (Tr W) → ℕ
count_label label [] = 0
count_label label (tr ∷ trs) =
    if label tr == eps_label then suc (count_label label trs) else count_label label trs

module _ {ℓ} {W : Type ℓ} ⦃sr : Semiring W⦄ where
  unfoldable pub set_trs_unchecked : VectorFst W → ℕ → List (Tr W) → VectorFst W
  unfolding add_all_properties
  set_trs_unchecked f source trs = on_state_unchecked f source (λ st. record f {
    states = set f.states source (record st {
      trs = trs;
      niepsilons = count_label (λ t. t.ilabel) trs;
      noepsilons = count_label (λ t. t.olabel) trs;
    });
    properties = add_all_properties f.properties source none trs;
  })
