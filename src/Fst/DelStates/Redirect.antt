-- ===== src/Fst/DelStates/Redirect.antt =====
-- The transitions that `del_states` keeps.
use rustfst.Base.{
  ℕ, zero, suc, ◌+◌, usize_pred, ◌≡◌, ◌==◌, refl, sym, ap, subst, ◌∙◌, inl, inr, if◌then◌else◌,
  List, [], ◌∷◌, ◌++◌, length, get_elem?, none, some, ok, Bool-cases, arith,
}
use rustfst.Tr.{Tr, eps_label}
use rustfst.Fst.{VectorFstState}
use rustfst.Fst.Mutate.{count_label}
use rustfst.Fst.DelStates.{deleted, redirect, redirect_all}

module _ {W : Type 0} (new_id : List ℕ) where
  -- The transitions to states that stay, with their new numbers.
  abbrev pub staying : List (Tr W) → List (Tr W)
  staying [] = []
  staying (tr ∷ trs) =
      let rest = staying trs in
      elim (get_elem? new_id tr.nextstate) as (λ _. List (Tr W)) [
        | none ↦ rest
        | some t ↦ if t == deleted then rest else record tr { nextstate = t } ∷ rest
      ]

  -- Every target has a number.
  abbrev pub Targets : List (Tr W) → Type 0
  Targets trs =
      (i : ℕ) (tr : Tr W)
      → get_elem? trs i ≡ some tr
      → (t : ℕ) × (get_elem? new_id tr.nextstate ≡ some t)

  -- A state after the loop, which began with some transitions and was to read the others.
  pub record Redirected (trs : List (Tr W)) (st st' : VectorFstState W) : Type 0 where
    pub final_stays : st'.final_weight ≡ st.final_weight
    pub read : st'.trs ≡ st.trs ++ staying trs
    pub inputs :
        st.niepsilons ≡ count_label (λ t. t.ilabel) st.trs + count_label (λ t. t.ilabel) trs
        → st'.niepsilons ≡ count_label (λ t. t.ilabel) st'.trs
    pub outputs :
        st.noepsilons ≡ count_label (λ t. t.olabel) st.trs + count_label (λ t. t.olabel) trs
        → st'.noepsilons ≡ count_label (λ t. t.olabel) st'.trs

  append-nil : (l : List (Tr W)) → l ++ [] ≡ l
  append-nil [] = refl
  append-nil (x ∷ l) = ap (◌∷◌ x) (append-nil l)

  append-step : (l : List (Tr W)) (x : Tr W) (r : List (Tr W)) → (l ++ x ∷ []) ++ r ≡ l ++ x ∷ r
  append-step [] x r = refl
  append-step (y ∷ l) x r = ap (◌∷◌ y) (append-step l x r)

  count-concat :
      (label : Tr W → ℕ) (l : List (Tr W)) (x : Tr W)
      → count_label label (l ++ x ∷ [])
        ≡ count_label label l + (if label x == eps_label then 1 else 0)
  count-concat label [] x = ground arith
  count-concat label (y ∷ l) x = ground (arith, count-concat label l x)

  redirect-Redirected :
      (st : VectorFstState W) (trs : List (Tr W))
      → Targets trs
      → (st' : VectorFstState W) × (redirect new_id st trs ≡ ok st') × Redirected trs st st'
  unfolding redirect
  redirect-Redirected st [] targets = (
    st,
    refl,
    record {
      final_stays = refl;
      read = sym (append-nil st.trs);
      inputs = λ h. omega arith;
      outputs = λ h. omega arith;
    },
  )
  redirect-Redirected st (tr ∷ trs) targets =
      let (t, e) = targets 0 tr refl in
      let others : Targets trs = λ i x h. targets (suc i) x h in
      elim (Bool-cases (t == deleted)) [
        | inl gone ↦
            let lowered : VectorFstState W = record st {
              niepsilons =
                  if tr.ilabel == eps_label then usize_pred st.niepsilons else st.niepsilons;
              noepsilons =
                  if tr.olabel == eps_label then usize_pred st.noepsilons else st.noepsilons;
            } in
            let (st', e', r) = redirect-Redirected lowered trs others in
            (
              st',
              ground (arith, e, gone, e'),
              record {
                final_stays = r.final_stays;
                read = ground (arith, r.read, e, gone);
                inputs = λ h. r.inputs (ground arith);
                outputs = λ h. r.outputs (ground arith);
              },
            )
        | inr stays ↦
            let kept : Tr W = record tr { nextstate = t } in
            let grown : VectorFstState W = record st { trs = st.trs ++ kept ∷ [] } in
            let (st', e', r) = redirect-Redirected grown trs others in
            (
              st',
              ground (arith, e, stays, e'),
              record {
                final_stays = r.final_stays;
                read = r.read ∙ append-step st.trs kept (staying trs) ∙ ground (arith, e, stays);
                inputs = λ h. r.inputs (ground (arith, count-concat (λ x. x.ilabel) st.trs kept));
                outputs = λ h. r.outputs (ground (arith, count-concat (λ x. x.olabel) st.trs kept));
              },
            )
      ]

  -- Each state stands redirected at its place.
  abbrev pub Each : List (VectorFstState W) → List (VectorFstState W) → Type 0
  Each states done =
      (i : ℕ) (st : VectorFstState W)
      → get_elem? states i ≡ some st
      → (st' : VectorFstState W) × (get_elem? done i ≡ some st')
        × Redirected st.trs (record st { trs = [] }) st'

  first_or_later :
      (st : VectorFstState W) (states : List (VectorFstState W)) (st' : VectorFstState W)
      (rest : List (VectorFstState W))
      → Redirected st.trs (record st { trs = [] }) st'
      → Each states rest
      → Each (st ∷ states) (st' ∷ rest)
  first_or_later st states st' rest r all zero x h = (
    st',
    refl,
    subst (λ (y : VectorFstState W). Redirected y.trs (record y { trs = [] }) st') (ground arith) r,
  )
  first_or_later st states st' rest r all (suc i) x h = all i x h

  -- All states, each redirected.
  pub redirect_all-Redirected :
      (states : List (VectorFstState W))
      → ((i : ℕ) (st : VectorFstState W) → get_elem? states i ≡ some st → Targets st.trs)
      → (done : List (VectorFstState W)) × (redirect_all new_id states ≡ ok done)
        × (length done ≡ length states)
        × Each states done
  unfolding redirect_all
  redirect_all-Redirected [] targets = ([], refl, refl, λ i st h. absurd (ground arith))
  redirect_all-Redirected (st ∷ states) targets =
      let (st', e, r) = redirect-Redirected (record st { trs = [] }) st.trs (targets 0 st refl) in
      let (rest, e', size, all) = redirect_all-Redirected states (λ i x h. targets (suc i) x h) in
      (st' ∷ rest, ground (arith, e, e'), ap suc size, first_or_later st states st' rest r all)
