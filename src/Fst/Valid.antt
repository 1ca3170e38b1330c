-- ===== src/Fst/Valid.antt =====
-- Well-formed machines: the start state and the targets exist, and the epsilon counters are right.
use rustfst.Base.{
  ℕ, suc, ◌+◌, ◌<◌, ◌≡◌, ◌⊎◌, inl, inr, refl, ap, sym, subst, ◌∙◌, ◌==◌, List, [], ◌∷◌, ◌++◌,
  length, get_elem?, set, replicate, length-set, get_elem?-lt, Option, none, some, ok, arith,
  Bool-cases, zero,
}
use rustfst.Tr.{Tr}
use rustfst.Weights.{Semiring}
use rustfst.Fst.{VectorFstState, VectorFst, new_state, increment_num_epsilons, num_states}
use rustfst.Fst.Mutate.{
  set_start, set_start_unchecked, set_final, delete_final_weight, put_final, add_state, add_states,
  add_tr, push_tr, delete_trs, clear_trs, del_all_states, count_label,
}
use rustfst.Fst.Access.{get_elem?-set, on_state-eq-ok, get_elem?-concat}
use rustfst.Fst.Effects.{add_states-AddsStates}

-- The counters of a state say how many of its transitions read or write epsilon.
pub record IsCounted {W : Type 0} (st : VectorFstState W) : Type 0 where
  pub inputs : st.niepsilons ≡ count_label (λ t. t.ilabel) st.trs
  pub outputs : st.noepsilons ≡ count_label (λ t. t.olabel) st.trs

pub record IsValid {W : Type 0} (f : VectorFst W) : Type 0 where
  pub start_exists : (s : ℕ) → f.start_state ≡ some s → s < num_states f
  pub counted : (x : ℕ) (st : VectorFstState W) → get_elem? f.states x ≡ some st → IsCounted st
  pub targets :
      (x i : ℕ) (st : VectorFstState W) (a : Tr W)
      → get_elem? f.states x ≡ some st
      → get_elem? st.trs i ≡ some a
      → a.nextstate < num_states f

pub count_label-append :
    {W : Type 0} (label : Tr W → ℕ) (xs ys : List (Tr W))
    → count_label label (xs ++ ys) ≡ count_label label xs + count_label label ys
count_label-append label [] ys = omega arith
count_label-append label (x ∷ xs) ys = ground (arith, count_label-append label xs ys)

module _ {W : Type 0} where
  -- A machine whose state `s` is replaced by a counted state with targets in range.
  pub set-IsValid :
      (f g : VectorFst W) (s : ℕ) (st : VectorFstState W)
      → IsValid f
      → s < num_states f
      → g.states ≡ set f.states s st
      → g.start_state ≡ f.start_state
      → IsCounted st
      → ((i : ℕ) (a : Tr W) → get_elem? st.trs i ≡ some a → a.nextstate < num_states f)
      → IsValid g
  set-IsValid f g s st v lt e q c t =
      let size : num_states g ≡ num_states f = ap length e ∙ length-set f.states s st in
      record {
        start_exists = λ x h. omega (arith, v.start_exists x (sym q ∙ h));
        counted = λ x u h. elim (Bool-cases (s == x)) [
          | inl same ↦
              subst IsCounted
                (ground (arith, ap (λ l. get_elem? l x) e, get_elem?-set f.states s x st lt)) c
          | inr other ↦
              v.counted x u
                (ground (arith, ap (λ l. get_elem? l x) e, get_elem?-set f.states s x st lt))
        ];
        targets = λ x i u a h k. elim (Bool-cases (s == x)) [
          | inl same ↦
              let p : st ≡ u =
                ground (arith, ap (λ l. get_elem? l x) e, get_elem?-set f.states s x st lt) in
              omega (
                arith,
                t i a (subst (λ (w : VectorFstState W). get_elem? w.trs i ≡ some a) (sym p) k),
              )
          | inr other ↦ omega (
            arith,
            v.targets x i u a
                (ground (arith, ap (λ l. get_elem? l x) e, get_elem?-set f.states s x st lt)) k,
          )
        ];
      }

  -- Past the old states stand new ones.
  state_cases :
      (xs : List (VectorFstState W)) (n x : ℕ) {st : VectorFstState W}
      → get_elem? (xs ++ replicate n new_state) x ≡ some st
      → (get_elem? xs x ≡ some st) ⊎ (st ≡ new_state)
  state_cases [] (suc n) zero h = inr (ground arith)
  state_cases [] (suc n) (suc x) h = state_cases [] n x h
  state_cases [] zero x h = cc
  state_cases (y ∷ xs) n zero h = inl h
  state_cases (y ∷ xs) n (suc x) h = state_cases xs n x h

  pub add_states-IsValid : (f : VectorFst W) (n : ℕ) → IsValid f → IsValid (add_states f n)
  unfolding add_states
  add_states-IsValid f n v =
      let size = (add_states-AddsStates f n).size in
      record {
        start_exists = λ s e. omega (arith, size, v.start_exists s e);
        counted = λ x st h. elim (state_cases f.states n x h) [
          | inl old ↦ v.counted x st old
          | inr fresh ↦ rw fresh (record { inputs = refl; outputs = refl })
        ];
        targets = λ x i st a h k. elim (state_cases f.states n x h) [
          | inl old ↦ omega (arith, size, v.targets x i st a old k)
          | inr fresh ↦ absurd (ground arith)
        ];
      }

  pub add_state-IsValid : (f : VectorFst W) → IsValid f → IsValid (add_state f).0
  unfolding add_state add_states
  add_state-IsValid f v = add_states-IsValid f 1 v

  pub empty-IsValid : (f : VectorFst W) → f.states ≡ [] → f.start_state ≡ none → IsValid f
  empty-IsValid f e q = record {
    start_exists = λ s h. cc;
    counted = λ x st h. absurd (omega (arith, get_elem?-lt f.states x h, ap length e));
    targets = λ x i st a h k. absurd (omega (arith, get_elem?-lt f.states x h, ap length e));
  }

  pub del_all_states-IsValid : (f : VectorFst W) → IsValid (del_all_states f)
  unfolding del_all_states
  del_all_states-IsValid f = empty-IsValid (del_all_states f) refl refl

  pub delete_trs-IsValid :
      (f g : VectorFst W) (s : ℕ) → IsValid f → delete_trs f s ≡ ok g → IsValid g
  unfolding delete_trs
  delete_trs-IsValid f g s v h =
      let (st, at, e) = on_state-eq-ok f s (clear_trs f s) h in
      subst IsValid e (
        set-IsValid f (clear_trs f s st) s _ v (get_elem?-lt f.states s at) refl refl
          (record { inputs = refl; outputs = refl }) (λ i a k. absurd (ground arith)))

  pub set_start-IsValid : (f g : VectorFst W) (s : ℕ) → IsValid f → set_start f s ≡ ok g → IsValid g
  unfolding set_start set_start_unchecked
  set_start-IsValid f g s v h =
      let (st, at, e) = on_state-eq-ok f s (λ _. set_start_unchecked f s) h in
      let lt = get_elem?-lt f.states s at in
      subst IsValid e
        (record { start_exists = λ x q. ground arith; counted = v.counted; targets = v.targets })

module _ {W : Type 0} ⦃sr : Semiring W⦄ where
  put_final-IsValid :
      (f : VectorFst W) (s : ℕ) (w : Option W) (st : VectorFstState W)
      → IsValid f
      → get_elem? f.states s ≡ some st
      → IsValid (put_final f s w st)
  put_final-IsValid f s w st v at =
      let c = v.counted s st at in
      set-IsValid f (put_final f s w st) s _ v (get_elem?-lt f.states s at) refl refl
        (record { inputs = c.inputs; outputs = c.outputs }) (λ i a k. v.targets s i st a at k)

  push-IsCounted :
      (st : VectorFstState W) (tr : Tr W)
      → IsCounted st
      → IsCounted (record (increment_num_epsilons st tr) { trs = st.trs ++ tr ∷ [] })
  unfolding increment_num_epsilons
  push-IsCounted st tr c = record {
    inputs = ground (arith, count_label-append (λ t. t.ilabel) st.trs (tr ∷ []), c.inputs);
    outputs = ground (arith, count_label-append (λ t. t.olabel) st.trs (tr ∷ []), c.outputs);
  }

  -- `add_tr` fails on a missing state, and otherwise keeps a machine well formed if the transition's
  -- target exists: the epsilon counters of the state follow the transition.
  pub add_tr-IsValid :
      (f g : VectorFst W) (s : ℕ) (tr : Tr W)
      → IsValid f
      → tr.nextstate < num_states f
      → add_tr f s tr ≡ ok g
      → IsValid g
  unfolding add_tr
  add_tr-IsValid f g s tr v lt h =
      let (st, at, e) = on_state-eq-ok f s (push_tr f s tr) h in
      let old = v.targets s in
      subst IsValid e (
        set-IsValid f (push_tr f s tr st) s _ v (get_elem?-lt f.states s at) refl refl
          (push-IsCounted st tr (v.counted s st at))
          (λ i a k. elim (get_elem?-concat st.trs tr i {a = a} k) [
            | inl p ↦ old i st a at p
            | inr (_, p) ↦ rw p lt
          ]))

  pub set_final-IsValid :
      (f g : VectorFst W) (s : ℕ) (w : W) → IsValid f → set_final f s w ≡ ok g → IsValid g
  unfolding set_final
  set_final-IsValid f g s w v h =
      let (st, at, e) = on_state-eq-ok f s (put_final f s (some w)) h in
      subst IsValid e (put_final-IsValid f s (some w) st v at)

  pub delete_final-IsValid :
      (f g : VectorFst W) (s : ℕ) → IsValid f → delete_final_weight f s ≡ ok g → IsValid g
  unfolding delete_final_weight
  delete_final-IsValid f g s v h =
      let (st, at, e) = on_state-eq-ok f s (put_final f s none) h in
      subst IsValid e (put_final-IsValid f s none st v at)
