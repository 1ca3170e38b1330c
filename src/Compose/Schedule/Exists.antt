-- ===== src/Compose/Schedule/Exists.antt =====
-- compose_filters/sequence_compose_filter.rs: it allows a way to follow two paths with the same labels.
use rustfst.Base.{
  ℕ, ◌==◌, ◌≡◌, ◌≢◌, ◌⊎◌, inl, inr, refl, ap, ⊎_elim, ◌∙◌, Bool, true, false, not, ◌&&◌, List, [],
  ◌∷◌, length, get_elem?, some, ok, arith, Bool-cases,
}
use rustfst.Tr.{Tr, eps_label}
use rustfst.Weights.{Semiring}
use rustfst.Fst.{VectorFst, VectorFstState}
use rustfst.Fst.Valid.{IsValid}
use rustfst.Compose.{no_label, no_state_id, decide, eps_loop_input, eps_loop_output}
use rustfst.Compose.Filters.{is_final, sequence_filter}
use rustfst.Compose.Schedule.{Move, first, second, both, IsPath, Accepts, read, IsLabelled}
use rustfst.Compose.Schedule.Sequence.{
  count_label-lt, finals, decides, answer_first, answer_second, answer_both, state_of,
}
use rustfst.Compose.Schedule.Unique.{unique}

module _ {W : Type 0} where
  abbrev pub StartsLabelled : List (Tr W) → Type 0
  StartsLabelled [] = Unit
  StartsLabelled (tr ∷ trs) = tr.olabel ≢ eps_label

module _ {W : Type 0} ⦃sr : Semiring W⦄ (f : VectorFst W) (v : IsValid f) where
  answers :
      (s1 s2 fs : ℕ) (st : VectorFstState W) (fin : Bool) (t2 : Tr W)
      → get_elem? f.states s1 ≡ some st
      → is_final f s1 ≡ ok fin
      → fs ≢ no_state_id
      → ((length st.trs == st.noepsilons) && not fin) ≡ false
      → (fs' : ℕ) × (decide (sequence_filter f) s1 s2 fs (eps_loop_output s1) t2 ≡ ok fs')
        × ((fs' ≡ 0) ⊎ (fs' ≡ 1))
  answers s1 s2 fs st fin t2 at e n free =
      let asked = decides f s1 s2 fs st fin (eps_loop_output s1) t2 at e n in
      let answer = answer_second f s1 s2 fs st fin t2 in
      elim (Bool-cases (st.noepsilons == 0)) [
        | inl h ↦ (0, asked ∙ ap ok (ground (arith, answer, free, h)), inl refl)
        | inr h ↦ (1, asked ∙ ap ok (ground (arith, answer, free, h)), inr refl)
      ]

  -- Where the first machine does not follow an epsilon, the second may.
  may_second :
      (s1 s2 fs : ℕ) (t2 : Tr W) (p1 : List (Tr W))
      → fs ≢ no_state_id
      → IsPath f s1 p1
      → StartsLabelled p1
      → (fs' : ℕ) × (decide (sequence_filter f) s1 s2 fs (eps_loop_output s1) t2 ≡ ok fs')
        × ((fs' ≡ 0) ⊎ (fs' ≡ 1))
  may_second s1 s2 fs t2 [] n path no_eps =
      let (st, at) = state_of f s1 [] path in answers s1 s2 fs st true t2 at path n (ground arith)
  may_second s1 s2 fs t2 (t1 ∷ p1) n path no_eps =
      let (st, at) = state_of f s1 (t1 ∷ p1) path in
      let (fin, e) = finals f s1 st at in
      let (i, tr_at) = path.0 in
      let counted = (v.counted s1 st at).outputs in
      let there : get_elem? st.trs i ≡ some t1 = ground (arith, at, tr_at) in
      let fewer = count_label-lt (λ t. t.olabel) st.trs i t1 there no_eps in
      answers s1 s2 fs st fin t2 at e n (ground (arith, counted, fewer))

  -- Both machines may follow equal labels, and the first an epsilon.
  may_both :
      (s1 s2 fs : ℕ) (t1 t2 : Tr W) (p1 : List (Tr W))
      → fs ≢ no_state_id
      → IsPath f s1 (t1 ∷ p1)
      → t1.olabel ≢ no_label
      → t1.olabel ≢ eps_label
      → t1.olabel ≡ t2.ilabel
      → decide (sequence_filter f) s1 s2 fs t1 t2 ≡ ok 0
  may_both s1 s2 fs t1 t2 p1 n path real labelled q =
      let (st, at) = state_of f s1 (t1 ∷ p1) path in
      let (fin, e) = finals f s1 st at in
      decides f s1 s2 fs st fin t1 t2 at e n
      ∙ ap ok (ground (arith, answer_both f s1 s2 fs st fin t1 t2 real q))

  may_first :
      (s1 s2 : ℕ) (t1 : Tr W) (p1 : List (Tr W))
      → IsPath f s1 (t1 ∷ p1)
      → t1.olabel ≡ eps_label
      → decide (sequence_filter f) s1 s2 0 t1 (eps_loop_input s2) ≡ ok 0
  may_first s1 s2 t1 p1 path eps =
      let (st, at) = state_of f s1 (t1 ∷ p1) path in
      let (fin, e) = finals f s1 st at in
      decides f s1 s2 0 st fin t1 (eps_loop_input s2) at e (omega arith)
      ∙ ap ok (answer_first f s1 s2 0 st fin t1 eps)

  -- The filter's state: the start state, or the one behind epsilons of the second machine.
  abbrev From : ℕ → List (Tr W) → Type 0
  From fs p1 = (fs ≡ 0) ⊎ ((fs ≡ 1) × StartsLabelled p1)

  From-open : (fs : ℕ) (p1 : List (Tr W)) → From fs p1 → fs ≢ no_state_id
  From-open fs p1 (inl e) = λ e'. ground arith
  From-open fs p1 (inr (e, _)) = λ e'. ground arith

  -- With a way for the rest, the first machine goes first.
  go_first :
      (s1 s2 fs : ℕ) (t1 : Tr W) (p1 p2 : List (Tr W))
      → IsPath f s1 (t1 ∷ p1)
      → From fs (t1 ∷ p1)
      → t1.olabel ≡ eps_label
      → (ms : List Move) × Accepts (sequence_filter f) ms t1.nextstate s2 0 p1 p2
      → (ms : List Move) × Accepts (sequence_filter f) ms s1 s2 fs (t1 ∷ p1) p2
  go_first s1 s2 fs t1 p1 p2 path (inl e) eps (ms, a) =
      let d = may_first s1 s2 t1 p1 path eps in (first ∷ ms, (eps, 0, rw e d, refl, a))
  go_first s1 s2 fs t1 p1 p2 path (inr (_, labelled)) eps rest = absurd (labelled eps)

  -- With a way for the rest, the second machine goes first.
  go_second :
      (s1 s2 fs : ℕ) (t2 : Tr W) (p1 p2 : List (Tr W))
      → IsPath f s1 p1
      → From fs p1
      → StartsLabelled p1
      → t2.ilabel ≡ eps_label
      → ((fs' : ℕ)
          → From fs' p1
          → (ms : List Move) × Accepts (sequence_filter f) ms s1 t2.nextstate fs' p1 p2)
      → (ms : List Move) × Accepts (sequence_filter f) ms s1 s2 fs p1 (t2 ∷ p2)
  go_second s1 s2 fs t2 p1 p2 path from labelled eps rest =
      let (fs', d, one) = may_second s1 s2 fs t2 p1 (From-open fs p1 from) path labelled in
      let (ms, a) = rest fs' (⊎_elim inl (λ e. inr (e, labelled)) one) in
      (second ∷ ms, (eps, fs', d, ground arith, a))

  pub exists :
      (p1 p2 : List (Tr W)) (s1 s2 fs : ℕ)
      → IsPath f s1 p1
      → From fs p1
      → IsLabelled (λ t. t.olabel) p1
      → read (λ t. t.olabel) p1 ≡ read (λ t. t.ilabel) p2
      → (ms : List Move) × Accepts (sequence_filter f) ms s1 s2 fs p1 p2
  exists [] [] s1 s2 fs path from real same = ([], tt)
  exists [] (t2 ∷ p2) s1 s2 fs path from real same = elim (Bool-cases (t2.ilabel == eps_label)) [
    | inl eps ↦
        go_second s1 s2 fs t2 [] p2 path from tt (ground arith) (λ fs' from'.
          exists [] p2 s1 t2.nextstate fs' path from' real (ground (arith, same, eps)))
    | inr labelled ↦ absurd (ground (arith, same, labelled))
  ]
  exists (t1 ∷ p1) [] s1 s2 fs path from real same = elim (Bool-cases (t1.olabel == eps_label)) [
    | inl eps ↦
        go_first s1 s2 fs t1 p1 [] path from (ground arith)
          (exists p1 [] t1.nextstate s2 0 path.1 (inl refl) real.1 (ground (arith, same, eps)))
    | inr labelled ↦ absurd (ground (arith, same, labelled))
  ]
  exists (t1 ∷ p1) (t2 ∷ p2) s1 s2 fs path from real same =
      elim (Bool-cases (t1.olabel == eps_label)) [
        | inl eps ↦ go_first s1 s2 fs t1 p1 (t2 ∷ p2) path from (ground arith) (
            exists p1 (t2 ∷ p2) t1.nextstate s2 0 path.1 (inl refl) real.1
              (ground (arith, same, eps)))
        | inr labelled ↦ elim (Bool-cases (t2.ilabel == eps_label)) [
          | inl eps ↦
              go_second s1 s2 fs t2 (t1 ∷ p1) p2 path from (λ e. ground arith) (ground arith)
                (λ fs' from'.
                  exists (t1 ∷ p1) p2 s1 t2.nextstate fs' path from' real
                    (ground (arith, same, eps)))
          | inr labelled2 ↦
              let heads : t1.olabel ≡ t2.ilabel = ground (arith, same, labelled, labelled2) in
              let d =
                may_both s1 s2 fs t1 t2 p1 (From-open fs (t1 ∷ p1) from) path real.0
                  (λ e. ground arith) heads in
              let (ms, a) =
                exists p1 p2 t1.nextstate t2.nextstate 0 path.1 (inl refl) real.1
                  (ground (arith, same, labelled, labelled2)) in
              (both ∷ ms, (heads, 0, d, refl, a))
        ]
      ]

  -- In a well-formed first machine, take a path to a final state without reserved output labels, and
  -- transitions that read what the path writes. From filter state 0, which composition starts with, there is one order of the moves
  -- that follows both to their ends and in which the sequence filter, asked about each move as
  -- `compute_trs` asks it, allows every move; and there is only one.
  pub sequence_filter_lem :
      (p1 p2 : List (Tr W)) (s1 s2 : ℕ)
      → IsPath f s1 p1
      → IsLabelled (λ t. t.olabel) p1
      → read (λ t. t.olabel) p1 ≡ read (λ t. t.ilabel) p2
      → (ms : List Move) × Accepts (sequence_filter f) ms s1 s2 0 p1 p2
        × ((ms' : List Move) → Accepts (sequence_filter f) ms' s1 s2 0 p1 p2 → ms' ≡ ms)
  sequence_filter_lem p1 p2 s1 s2 path real same =
      let (ms, a) = exists p1 p2 s1 s2 0 path (inl refl) real same in
      (ms, a, λ ms' b. unique f v ms' ms s1 s2 0 p1 p2 (omega arith) path b a)
