-- ===== src/Fst/Missing.antt =====
-- States that do not exist.
use rustfst.Base.{
  ℕ, ◌≤◌, ◌≡◌, ◌↔◌, Option-cases, inl, inr, get_elem?, get_elem?-some, get_elem?-none, err,
  no_state, arith, Result, List, [], ◌∷◌, set, take, replicate, Option, none, some, Error, panic,
  Result-cases, Bool-cases, ◌==◌, ◌++◌, if◌then◌else◌, usize_pred,
}
use native.Mathlib.Decide.{dec_le, dec_lt}
use rustfst.Algorithms.Loops.{for_range}
use rustfst.Props.Update.{delete_states_properties}
use rustfst.Tr.{Tr, eps_label}
use rustfst.Weights.{Semiring}
use rustfst.Fst.{
  VectorFstState, VectorFst, num_states, on_state, final_weight, num_trs, get_trs,
  num_input_epsilons, num_output_epsilons,
}
use rustfst.Fst.Iter.{TrsIterMut, tr_iter_mut}
use rustfst.Fst.DelStates.{
  deleted, mark_deleted, renumber, redirect, redirect_all, new_start, del_states, del_state,
}
use rustfst.Fst.Mutate.{
  set_start, set_final, delete_final_weight, take_final_weight, add_tr, delete_trs, pop_trs,
}

-- A checked operation fails, with the number of the state, exactly if the state does not exist.
abbrev pub FailsWhereMissing {κ} : {W : Type 0} {B : Type κ} → VectorFst W → ℕ → Result B → Type κ
FailsWhereMissing f s outcome = (outcome ≡ err (no_state s)) ↔ (num_states f ≤ s)

fails_where_missing :
    {W : Type 0} {B : Type 0} (f : VectorFst W) (s : ℕ) (use_state : VectorFstState W → B)
    → FailsWhereMissing f s (on_state f s use_state)
fails_where_missing f s use_state = (
  λ e. elim (Option-cases (get_elem? f.states s)) [
    | inl absent ↦ elim (dec_le (num_states f) s) [
      | yes le ↦ le
      | no gt ↦
          let (st, at) = get_elem?-some f.states s (omega arith) in absurd (ground (arith, at))
    ]
    | inr (st, at) ↦ absurd (ground (arith, at))
  ],
  λ le. ground (arith, get_elem?-none f.states s le),
)

-- The failures of `del_states` are panics.
mark_deleted-panics :
    (new_id dstates : List ℕ) (e : Error) → mark_deleted new_id dstates ≡ err e → e ≡ panic
unfolding mark_deleted
mark_deleted-panics new_id [] e h = cc
mark_deleted-panics new_id (s ∷ dstates) e h = elim (Option-cases (get_elem? new_id s)) [
  | inl absent ↦ ground (arith, absent)
  | inr (id, at) ↦ mark_deleted-panics (set new_id s deleted) dstates e (ground (arith, at))
]

new_start-panics :
    (new_id : List ℕ) (start : Option ℕ) (e : Error) → new_start new_id start ≡ err e → e ≡ panic
unfolding new_start
new_start-panics new_id none e h = cc
new_start-panics new_id (some s) e h = elim (Option-cases (get_elem? new_id s)) [
  | inl absent ↦ ground (arith, absent)
  | inr (id, at) ↦ ground (arith, at)
]

module _ {W : Type 0} where
  redirect-panics :
      (new_id : List ℕ) (st : VectorFstState W) (trs : List (Tr W)) (e : Error)
      → redirect new_id st trs ≡ err e
      → e ≡ panic
  unfolding redirect
  redirect-panics new_id st [] e h = cc
  redirect-panics new_id st (tr ∷ trs) e h = elim (Option-cases (get_elem? new_id tr.nextstate)) [
    | inl absent ↦ ground (arith, absent)
    | inr (t, at) ↦ elim (Bool-cases (t == deleted)) [
      | inl gone ↦
          redirect-panics new_id
            (record st {
              niepsilons =
                  if tr.ilabel == eps_label then usize_pred st.niepsilons else st.niepsilons;
              noepsilons =
                  if tr.olabel == eps_label then usize_pred st.noepsilons else st.noepsilons;
            })
            trs e (ground (arith, at, gone))
      | inr stays ↦
          redirect-panics new_id (record st { trs = st.trs ++ record tr { nextstate = t } ∷ [] })
            trs e (ground (arith, at, stays))
    ]
  ]

  redirect_all-panics :
      (new_id : List ℕ) (states : List (VectorFstState W)) (e : Error)
      → redirect_all new_id states ≡ err e
      → e ≡ panic
  unfolding redirect_all
  redirect_all-panics new_id [] e h = cc
  redirect_all-panics new_id (st ∷ states) e h =
      elim (Result-cases (redirect new_id (record st { trs = [] }) st.trs)) [
        | inl (x, ex) ↦
            redirect-panics new_id (record st { trs = [] }) st.trs e (ground (arith, ex))
        | inr (st', e') ↦ elim (Result-cases (redirect_all new_id states)) [
          | inl (x, ex) ↦ redirect_all-panics new_id states e (ground (arith, e', ex))
          | inr (rest, e'') ↦ absurd (ground (arith, e', e''))
        ]
      ]

  del_states-panics :
      (f : VectorFst W) (dstates : List ℕ) (e : Error) → del_states f dstates ≡ err e → e ≡ panic
  unfolding del_states
  del_states-panics f dstates e h =
      elim (Result-cases (mark_deleted (replicate (num_states f) 0) dstates)) [
        | inl (x, ex) ↦
            mark_deleted-panics (replicate (num_states f) 0) dstates e (ground (arith, ex))
        | inr (marked, e1) ↦
            let r =
              for_range (renumber {W = W}) 0 (num_states f)
                (record { new_id = marked; states = f.states; nstates = 0 }) in
            let left = take r.nstates r.states in
            elim (Result-cases (redirect_all r.new_id left)) [
              | inl (x, ex) ↦ redirect_all-panics r.new_id left e (ground (arith, e1, ex))
              | inr (states, e2) ↦ elim (Result-cases (new_start r.new_id f.start_state)) [
                | inl (x, ex) ↦
                    new_start-panics r.new_id f.start_state e (ground (arith, e1, e2, ex))
                | inr (start, e3) ↦ absurd (ground (arith, e1, e2, e3))
              ]
            ]
      ]

  del_state-missing : (f : VectorFst W) (s : ℕ) → FailsWhereMissing f s (del_state f s)
  unfolding del_state
  del_state-missing f s = elim (dec_lt s (num_states f)) [
    | yes lt ↦ (
      λ h.
          let f' = record f { properties = delete_states_properties f.properties } in
          absurd
            (ground (arith, del_states-panics f' (s ∷ []) (no_state s) (ground (arith, h, lt)))),
      λ le. absurd (omega arith),
    )
    | no ge ↦ (λ h. omega arith, λ le. ground (arith, ge))
  ]

-- The operations `set_start`, `set_final`, `delete_final_weight`, `take_final_weight`, `add_tr`,
-- `delete_trs`, `pop_trs`, `tr_iter_mut` and `del_state` on state `s`, and the accessors `final_weight`,
-- `num_trs`, `get_trs`, `num_input_epsilons` and `num_output_epsilons`, fail with the error that names
-- `s` exactly if the machine has no state `s`.
pub missing_state_lem :
    {W : Type 0} ⦃sr : Semiring W⦄ (f : VectorFst W) (s : ℕ) (w : W) (tr : Tr W)
    (use_iter : TrsIterMut W → TrsIterMut W)
    → FailsWhereMissing f s (set_start f s)
      × FailsWhereMissing f s (set_final f s w)
      × FailsWhereMissing f s (delete_final_weight f s)
      × FailsWhereMissing f s (take_final_weight f s)
      × FailsWhereMissing f s (add_tr f s tr)
      × FailsWhereMissing f s (delete_trs f s)
      × FailsWhereMissing f s (pop_trs f s)
      × FailsWhereMissing f s (tr_iter_mut f s use_iter)
      × FailsWhereMissing f s (del_state f s)
      × FailsWhereMissing f s (final_weight f s)
      × FailsWhereMissing f s (num_trs f s)
      × FailsWhereMissing f s (get_trs f s)
      × FailsWhereMissing f s (num_input_epsilons f s)
      × FailsWhereMissing f s (num_output_epsilons f s)
unfolding set_start set_final delete_final_weight take_final_weight add_tr delete_trs pop_trs
    tr_iter_mut final_weight num_trs get_trs num_input_epsilons num_output_epsilons
missing_state_lem f s w tr use_iter = (
  fails_where_missing f s _,
  fails_where_missing f s _,
  fails_where_missing f s _,
  fails_where_missing f s _,
  fails_where_missing f s _,
  fails_where_missing f s _,
  fails_where_missing f s _,
  fails_where_missing f s _,
  del_state-missing f s,
  fails_where_missing f s _,
  fails_where_missing f s _,
  fails_where_missing f s _,
  fails_where_missing f s _,
  fails_where_missing f s _,
)
