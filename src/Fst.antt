-- ===== src/Fst.antt =====
-- rustfst/src/fst_impls/vector_fst/{data_structure,fst}.rs: a machine is a vector of states. Shared
-- vectors of transitions (`Arc`, copied on write) are plain lists, and symbol tables, which no
-- operation here reads, are left out.
pub mod Mutate
pub mod Iter
pub mod Access
pub mod Effects
pub mod Missing
pub mod DelStates
pub mod Valid
pub mod Built
pub mod Meaning
pub mod Sound
pub mod Tests
use rustfst.Base.{
  ℕ, suc, ◌+◌, ◌-◌, ◌==◌, ltb, if◌then◌else◌, List, [], ◌∷◌, length, get_elem?, Option, none, some,
  Result, ok, err, no_state, ◌≡◌,
}
use rustfst.Tr.{Tr, eps_label}
use rustfst.Props.{FstProperties}

pub record VectorFstState {ℓ} (W : Type ℓ) : Type ℓ where
  pub final_weight : Option W
  pub trs : List (Tr W)
  pub niepsilons : ℕ
  pub noepsilons : ℕ

pub record VectorFst {ℓ} (W : Type ℓ) : Type ℓ where
  pub states : List (VectorFstState W)
  pub start_state : Option ℕ
  pub properties : FstProperties

module _ {ℓ} {W : Type ℓ} where
  -- `VectorFstState::new`
  abbrev pub new_state : VectorFstState W
  new_state = record { final_weight = none; trs = []; niepsilons = 0; noepsilons = 0 }

  unfoldable pub increment_num_epsilons : VectorFstState W → Tr W → VectorFstState W
  increment_num_epsilons st tr = record st {
    niepsilons = if tr.ilabel == eps_label then st.niepsilons + 1 else st.niepsilons;
    noepsilons = if tr.olabel == eps_label then st.noepsilons + 1 else st.noepsilons;
  }

  abbrev pub num_states : VectorFst W → ℕ
  num_states f = length f.states

  -- `states.get(id).ok_or_else(…)?`, and what is done with the state.
  abbrev pub on_state {κ} : {B : Type κ} → VectorFst W → ℕ → (VectorFstState W → B) → Result B
  on_state f id use_state = elim (get_elem? f.states id) [
    | none ↦ err (no_state id)
    | some st ↦ ok (use_state st)
  ]

  unfoldable pub final_weight : VectorFst W → ℕ → Result (Option W)
  final_weight f id = on_state f id (λ st. st.final_weight)

  unfoldable pub num_trs : VectorFst W → ℕ → Result ℕ
  num_trs f id = on_state f id (λ st. length st.trs)

  unfoldable pub get_trs : VectorFst W → ℕ → Result (List (Tr W))
  get_trs f id = on_state f id (λ st. st.trs)

  unfoldable pub num_input_epsilons : VectorFst W → ℕ → Result ℕ
  num_input_epsilons f id = on_state f id (λ st. st.niepsilons)

  unfoldable pub num_output_epsilons : VectorFst W → ℕ → Result ℕ
  num_output_epsilons f id = on_state f id (λ st. st.noepsilons)

  -- `get_trs_unchecked` and `final_weight_unchecked`; out of range they are undefined in the source,
  -- and empty here.
  abbrev pub trs_of : VectorFst W → ℕ → List (Tr W)
  trs_of f id = elim (get_elem? f.states id) [ none ↦ [] | some st ↦ st.trs ]

  abbrev pub final_of : VectorFst W → ℕ → Option W
  final_of f id = elim (get_elem? f.states id) [ none ↦ none | some st ↦ st.final_weight ]

  -- Transition number `i` of state `s`.
  abbrev pub TrAt : VectorFst W → ℕ → ℕ → Tr W → Type ℓ
  TrAt f s i tr = ◌≡◌ {A = Option (Tr W)} (get_elem? (trs_of f s) i) (some tr)
