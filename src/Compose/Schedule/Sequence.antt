-- ===== src/Compose/Schedule/Sequence.antt =====
-- compose_filters/sequence_compose_filter.rs on paths.
use rustfst.Base.{
  ℕ, suc, zero, ◌==◌, ◌≡◌, ◌≢◌, ◌<◌, ◌≤◌, inl, inr, refl, sym, ap, subst, ◌∙◌, if◌then◌else◌, Bool,
  false, not, ◌&&◌, List, [], ◌∷◌, length, get_elem?, some, Option-cases, Result, ok, ◌>>=◌, arith,
  ok-inj,
}
use rustfst.Tr.{Tr, eps_label}
use rustfst.Weights.{Semiring, is_zero}
use rustfst.Fst.{VectorFst, VectorFstState, final_weight, num_trs, num_output_epsilons}
use rustfst.Fst.Mutate.{count_label}
use rustfst.Fst.Valid.{IsValid}
use rustfst.Compose.{no_label, no_state_id, decide, eps_loop_input, eps_loop_output}
use rustfst.Compose.Filters.{
  SequenceState, sequence_build, is_final, sequence_filter, sequence_filter_tr, sequence_set_state,
}
use rustfst.Compose.Schedule.{Move, first, second, both, IsPath, Accepts}

module _ {W : Type 0} where
  -- A transition without the label is not counted, one with it is.
  count_label-le : (label : Tr W → ℕ) (trs : List (Tr W)) → count_label label trs ≤ length trs
  count_label-le label [] = omega arith
  count_label-le label (tr ∷ trs) = ground (arith, count_label-le label trs)

  pub count_label-lt :
      (label : Tr W → ℕ) (trs : List (Tr W)) (i : ℕ) (tr : Tr W)
      → get_elem? trs i ≡ some tr
      → label tr ≢ eps_label
      → count_label label trs < length trs
  count_label-lt label [] i tr h n = cc
  count_label-lt label (x ∷ trs) zero tr h n = ground (arith, count_label-le label trs)
  count_label-lt label (x ∷ trs) (suc i) tr h n = ground (arith, count_label-lt label trs i tr h n)

  pub count_label-pos :
      (label : Tr W → ℕ) (trs : List (Tr W)) (i : ℕ) (tr : Tr W)
      → get_elem? trs i ≡ some tr
      → label tr ≡ eps_label
      → 0 < count_label label trs
  count_label-pos label [] i tr h n = cc
  count_label-pos label (x ∷ trs) zero tr h n = ground arith
  count_label-pos label (x ∷ trs) (suc i) tr h n =
      ground (arith, count_label-pos label trs i tr h n)

module _ {W : Type 0} ⦃sr : Semiring W⦄ (f : VectorFst W) where
  pub finals :
      (s : ℕ) (st : VectorFstState W)
      → get_elem? f.states s ≡ some st
      → (fin : Bool) × (is_final f s ≡ ok fin)
  unfolding is_final final_weight
  finals s st at = elim (Option-cases st.final_weight) [
    | inl e ↦ (false, ground (arith, at, e))
    | inr (w, e) ↦ (not (is_zero w), ground (arith, at, e))
  ]

  -- What a fresh filter remembers of a state.
  pub seen : ℕ → ℕ → ℕ → VectorFstState W → Bool → SequenceState
  seen s1 s2 fs st fin = record {
    s1 = s1;
    s2 = s2;
    fs = fs;
    alleps = (length st.trs == st.noepsilons) && not fin;
    noeps = st.noepsilons == 0;
  }

  sets :
      (s1 s2 fs : ℕ) (st : VectorFstState W) (fin : Bool)
      → get_elem? f.states s1 ≡ some st
      → is_final f s1 ≡ ok fin
      → fs ≢ no_state_id
      → sequence_set_state f sequence_build s1 s2 fs ≡ ok (seen s1 s2 fs st fin)
  unfolding sequence_set_state num_trs num_output_epsilons seen
  sets s1 s2 fs st fin at e n =
      let unset : ((no_state_id == s1) && (no_state_id == s2) && (no_state_id == fs)) ≡ false =
        ground arith in
      ground (arith, unset, at, e)

  pub decides :
      (s1 s2 fs : ℕ) (st : VectorFstState W) (fin : Bool) (t1 t2 : Tr W)
      → get_elem? f.states s1 ≡ some st
      → is_final f s1 ≡ ok fin
      → fs ≢ no_state_id
      → decide (sequence_filter f) s1 s2 fs t1 t2
        ≡ ok (sequence_filter_tr (seen s1 s2 fs st fin) t1 t2)
  unfolding decide
  decides s1 s2 fs st fin t1 t2 at e n =
      ap (λ r. r >>= λ filter. ok (sequence_filter_tr filter t1 t2)) (sets s1 s2 fs st fin at e n)

  -- The filter's answers to the three moves, of the first machine, of the second and of both.
  pub answer_first :
      (s1 s2 fs : ℕ) (st : VectorFstState W) (fin : Bool) (t1 : Tr W)
      → t1.olabel ≡ eps_label
      → sequence_filter_tr (seen s1 s2 fs st fin) t1 (eps_loop_input s2)
        ≡ (if fs == 0 then 0 else no_state_id)
  unfolding sequence_filter_tr seen
  answer_first s1 s2 fs st fin t1 e = ground arith

  pub answer_second :
      (s1 s2 fs : ℕ) (st : VectorFstState W) (fin : Bool) (t2 : Tr W)
      → sequence_filter_tr (seen s1 s2 fs st fin) (eps_loop_output s1) t2 ≡ (
          if (length st.trs == st.noepsilons) && not fin
          then no_state_id
          else if st.noepsilons == 0
          then 0
          else 1)
  unfolding sequence_filter_tr seen
  answer_second s1 s2 fs st fin t2 = refl

  pub answer_both :
      (s1 s2 fs : ℕ) (st : VectorFstState W) (fin : Bool) (t1 t2 : Tr W)
      → t1.olabel ≢ no_label
      → t1.olabel ≡ t2.ilabel
      → sequence_filter_tr (seen s1 s2 fs st fin) t1 t2
        ≡ (if t1.olabel == eps_label then no_state_id else 0)
  unfolding sequence_filter_tr seen
  answer_both s1 s2 fs st fin t1 t2 n e = ground arith

  pub state_of :
      (s : ℕ) (p : List (Tr W))
      → IsPath f s p
      → (st : VectorFstState W) × (get_elem? f.states s ≡ some st)
  unfolding is_final final_weight
  state_of s [] h = elim (Option-cases (get_elem? f.states s)) [
    | inl e ↦ absurd (ground (arith, e, h))
    | inr found ↦ found
  ]
  state_of s (tr ∷ p) ((i, at), _) = elim (Option-cases (get_elem? f.states s)) [
    | inl e ↦ absurd (ground (arith, e, at))
    | inr found ↦ found
  ]

  pub decided : (r : Result ℕ) {a b : ℕ} → r ≡ ok a → r ≡ ok b → a ≡ b
  decided r h k = ok-inj (sym h ∙ k)

module _ {W : Type 0} ⦃sr : Semiring W⦄ (f : VectorFst W) (v : IsValid f) where
  -- The second machine does not go on at a state that has epsilons without the filter noticing.
  pub second_notices :
      (s1 s2 fs fs' : ℕ) (t1 t2 : Tr W) (p1 : List (Tr W))
      → fs ≢ no_state_id
      → IsPath f s1 (t1 ∷ p1)
      → t1.olabel ≡ eps_label
      → decide (sequence_filter f) s1 s2 fs (eps_loop_output s1) t2 ≡ ok fs'
      → (fs' == no_state_id) ≡ false
      → fs' ≡ 1
  second_notices s1 s2 fs fs' t1 t2 p1 n path eps d open_one =
      let (st, at) = state_of f s1 (t1 ∷ p1) path in
      let (fin, e) = finals f s1 st at in
      let (i, tr_at) = path.0 in
      let counted = (v.counted s1 st at).outputs in
      let there : get_elem? st.trs i ≡ some t1 = ground (arith, at, tr_at) in
      let many = count_label-pos (λ t. t.olabel) st.trs i t1 there eps in
      let same = decided f _ (decides f s1 s2 fs st fin (eps_loop_output s1) t2 at e n) d in
      ground (arith, answer_second f s1 s2 fs st fin t2, same, counted, many)

  -- After such a move the first machine cannot follow its epsilon.
  pub dead :
      (ms : List Move) (s1 s2 : ℕ) (t1 : Tr W) (p1 p2 : List (Tr W))
      → IsPath f s1 (t1 ∷ p1)
      → t1.olabel ≡ eps_label
      → Accepts (sequence_filter f) ms s1 s2 1 (t1 ∷ p1) p2
      → ⊥
  dead [] s1 s2 t1 p1 p2 path eps a = a
  dead (first ∷ ms) s1 s2 t1 p1 p2 path eps (_, fs', d, open_one, a) =
      let (st, at) = state_of f s1 (t1 ∷ p1) path in
      let (fin, e) = finals f s1 st at in
      let same =
        decided f _ (decides f s1 s2 1 st fin t1 (eps_loop_input s2) at e (omega arith)) d in
      ground (arith, answer_first f s1 s2 1 st fin t1 eps, same, open_one)
  dead (second ∷ ms) s1 s2 t1 p1 [] path eps a = a
  dead (second ∷ ms) s1 s2 t1 p1 (t2 ∷ p2) path eps (_, fs', d, open_one, a) =
      let one = second_notices s1 s2 1 fs' t1 t2 p1 (omega arith) path eps d open_one in
      dead ms s1 t2.nextstate t1 p1 p2 path eps
        (subst (λ (x : ℕ). Accepts (sequence_filter f) ms s1 t2.nextstate x (t1 ∷ p1) p2) one a)
  dead (both ∷ ms) s1 s2 t1 p1 [] path eps a = a
  dead (both ∷ ms) s1 s2 t1 p1 (t2 ∷ p2) path eps (q, fs', d, open_one, a) =
      let (st, at) = state_of f s1 (t1 ∷ p1) path in
      let (fin, e) = finals f s1 st at in
      let same = decided f _ (decides f s1 s2 1 st fin t1 t2 at e (omega arith)) d in
      ground (arith, answer_both f s1 s2 1 st fin t1 t2 (omega arith) q, same, open_one)

  -- Both machines do not follow epsilons at once.
  pub not_both_eps :
      (s1 s2 fs fs' : ℕ) (t1 t2 : Tr W) (p1 : List (Tr W))
      → fs ≢ no_state_id
      → IsPath f s1 (t1 ∷ p1)
      → t1.olabel ≡ eps_label
      → t1.olabel ≡ t2.ilabel
      → decide (sequence_filter f) s1 s2 fs t1 t2 ≡ ok fs'
      → (fs' == no_state_id) ≡ false
      → ⊥
  not_both_eps s1 s2 fs fs' t1 t2 p1 n path eps q d open_one =
      let (st, at) = state_of f s1 (t1 ∷ p1) path in
      let (fin, e) = finals f s1 st at in
      let same = decided f _ (decides f s1 s2 fs st fin t1 t2 at e n) d in
      ground (arith, answer_both f s1 s2 fs st fin t1 t2 (omega arith) q, same, open_one)
