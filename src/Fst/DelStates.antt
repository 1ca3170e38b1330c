-- ===== src/Fst/DelStates.antt =====
-- rustfst/src/fst_impls/vector_fst/mutable_fst.rs: `del_states`.
pub mod Marks
pub mod Numbers
pub mod Redirect
pub mod Whole
use rustfst.Base.{
  ℕ, suc, usize_pred, ltb, ◌==◌, u32, if◌then◌else◌, List, [], ◌∷◌, ◌++◌, length, get_elem?, set,
  take, replicate, Option, none, some, Result, no_state, ok, err, panic, ◌>>=◌, index,
}
use rustfst.Tr.{Tr, eps_label}
use rustfst.Props.Update.{delete_states_properties}
use rustfst.Algorithms.Loops.{for_range}
use rustfst.Fst.{VectorFstState, VectorFst}

-- The `-1_i32` of a deleted state. The vector `new_id` holds the 32 bits of its numbers.
abbrev pub deleted : ℕ
deleted = 4294967295

-- The loop over the states to delete.
unfoldable pub mark_deleted : List ℕ → List ℕ → Result (List ℕ)
mark_deleted new_id [] = ok new_id
mark_deleted new_id (s ∷ dstates) = elim (get_elem? new_id s) [
  | none ↦ err panic
  | some _ ↦ mark_deleted (set new_id s deleted) dstates
]

-- `swap` of a vector; out of range, where the source panics, it does nothing.
abbrev pub swap {ℓ} : {A : Type ℓ} → List A → ℕ → ℕ → List A
swap l i j = elim (get_elem? l i) [
  | none ↦ l
  | some a ↦ elim (get_elem? l j) [ none ↦ l | some b ↦ set (set l i b) j a ]
]

pub record Numbering (W : Type 0) : Type 0 where
  pub new_id : List ℕ
  pub states : List (VectorFstState W)
  pub nstates : ℕ

-- The new start state.
unfoldable pub new_start : List ℕ → Option ℕ → Result (Option ℕ)
new_start new_id none = ok none
new_start new_id (some start) =
    index new_id start >>= λ t. ok (if t == deleted then none else some t)

module _ {W : Type 0} where
  -- The loop that numbers the states that stay, and moves them to the front.
  abbrev pub renumber : Numbering W → ℕ → Numbering W
  renumber r s = elim (get_elem? r.new_id s) [
    | none ↦ r
    | some id ↦ if id == deleted then r else record {
      new_id = set r.new_id s (u32 r.nstates);
      states = if s == r.nstates then r.states else swap r.states r.nstates s;
      nstates = suc r.nstates;
    }
  ]

  -- The loop over the transitions of a state, which starts with none: a transition to a state that stays
  -- is kept with the new number, and one to a deleted state lowers the counters.
  unfoldable pub redirect : List ℕ → VectorFstState W → List (Tr W) → Result (VectorFstState W)
  redirect new_id st [] = ok st
  redirect new_id st (tr ∷ trs) = elim (get_elem? new_id tr.nextstate) [
    | none ↦ err panic
    | some t ↦
        redirect new_id
          (if t == deleted
            then record st {
              niepsilons =
                  if tr.ilabel == eps_label then usize_pred st.niepsilons else st.niepsilons;
              noepsilons =
                  if tr.olabel == eps_label then usize_pred st.noepsilons else st.noepsilons;
            }
            else record st { trs = st.trs ++ record tr { nextstate = t } ∷ [] })
          trs
  ]

  unfoldable pub redirect_all : List ℕ → List (VectorFstState W) → Result (List (VectorFstState W))
  unfolding redirect
  redirect_all new_id [] = ok []
  redirect_all new_id (st ∷ states) = redirect new_id (record st { trs = [] }) st.trs >>= λ st'.
      redirect_all new_id states >>= λ rest. ok (st' ∷ rest)

  unfoldable pub del_states : VectorFst W → List ℕ → Result (VectorFst W)
  unfolding mark_deleted redirect_all new_start for_range delete_states_properties
  del_states f dstates = mark_deleted (replicate (length f.states) 0) dstates >>= λ marked.
      let r =
        for_range renumber 0 (length f.states)
          (record { new_id = marked; states = f.states; nstates = 0 }) in
      redirect_all r.new_id (take r.nstates r.states) >>= λ states.
      new_start r.new_id f.start_state >>= λ start_state. ok (record {
        states = states;
        start_state = start_state;
        properties = delete_states_properties f.properties;
      })

  unfoldable pub del_state : VectorFst W → ℕ → Result (VectorFst W)
  unfolding del_states delete_states_properties
  del_state f state_to_remove =
      if ltb state_to_remove (length f.states)
      then del_states (record f { properties = delete_states_properties f.properties })
          (state_to_remove ∷ [])
      else err (no_state state_to_remove)
