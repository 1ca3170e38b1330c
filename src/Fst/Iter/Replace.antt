-- ===== src/Fst/Iter/Replace.antt =====
-- `set_tr` on a transition of a machine.
use rustfst.Base.{
  ℕ, zero, suc, ◌<◌, ◌≡◌, inl, inr, refl, sym, subst, ◌==◌, if◌then◌else◌, List, [], ◌∷◌, get_elem?,
  set, length-set, get_elem?-lt, some, arith, Bool-cases, Option-cases,
}
use rustfst.Tr.{Tr, eps_label}
use rustfst.Weights.{Semiring}
use rustfst.Fst.{VectorFstState, VectorFst, num_states, trs_of, final_of, TrAt}
use rustfst.Fst.Mutate.{count_label}
use rustfst.Fst.Access.{get_elem?-set, trs_of-set, final_of-set}
use rustfst.Fst.Valid.{IsValid, set-IsValid}
use rustfst.Fst.Iter.{with_iter, set_tr_unchecked, compute_new_properties_all, updated_epsilons}

-- One more transition that counts, where the subtraction does not wrap around.
updated_epsilons-suc :
    (n old_label new_label : ℕ)
    → (old_label ≡ eps_label → 0 < n)
    → updated_epsilons (suc n) old_label new_label ≡ suc (updated_epsilons n old_label new_label)
updated_epsilons-suc n old_label new_label pos = elim (Bool-cases (old_label == eps_label)) [
  | inl e ↦ let more : 0 < n = pos (ground arith) in ground arith
  | inr e ↦ ground arith
]

module _ {W : Type 0} where
  -- A state with a transition that counts has a counter that is not zero.
  pub count_label-pos :
      (label : Tr W → ℕ) (l : List (Tr W)) (i : ℕ) (old : Tr W)
      → get_elem? l i ≡ some old
      → label old ≡ eps_label
      → 0 < count_label label l
  count_label-pos label [] i old h e = cc
  count_label-pos label (a ∷ l) zero old h e =
      let e' : label a ≡ label old = ground arith in ground arith
  count_label-pos label (a ∷ l) (suc i) old h e = ground (arith, count_label-pos label l i old h e)

  pub count_label-set :
      (label : Tr W → ℕ) (l : List (Tr W)) (i : ℕ) (old new : Tr W)
      → get_elem? l i ≡ some old
      → count_label label (set l i new)
        ≡ updated_epsilons (count_label label l) (label old) (label new)
  count_label-set label [] i old new h = cc
  count_label-set label (a ∷ l) zero old new h =
      let e : label a ≡ label old = ground (arith) in rw e (ground arith)
  count_label-set label (a ∷ l) (suc i) old new h =
      let rest = count_label-set label l i old new h in
      let grows =
        updated_epsilons-suc (count_label label l) (label old) (label new)
          (count_label-pos label l i old h) in
      elim (Bool-cases (label a == eps_label)) [
        | inl e ↦ simp (e, rest, grows)
        | inr e ↦ simp (e, rest)
      ]

module _ {W : Type 0} ⦃sr : Semiring W⦄ where
  -- A machine whose transition `old` is replaced by `new`.
  pub record Replaces (f : VectorFst W) (s i : ℕ) (old new : Tr W) (g : VectorFst W) : Type 0 where
    pub place : TrAt f s i old
    pub trs : (x : ℕ) → trs_of g x ≡ (if s == x then set (trs_of f s) i new else trs_of f x)
    pub finals : (x : ℕ) → final_of g x ≡ final_of f x
    pub start : g.start_state ≡ f.start_state
    pub size : num_states g ≡ num_states f
    pub props : g.properties ≡ compute_new_properties_all f.properties old new

  -- The machine after `set_tr`.
  abbrev pub with_tr_set : VectorFst W → ℕ → ℕ → Tr W → VectorFst W
  with_tr_set f s i new = with_iter f s (λ it. set_tr_unchecked it i new)

  state_of_TrAt :
      (f : VectorFst W) (s i : ℕ) (a : Tr W)
      → TrAt f s i a
      → (st : VectorFstState W) × (get_elem? f.states s ≡ some st) × (get_elem? st.trs i ≡ some a)
  state_of_TrAt f s i a h = elim (Option-cases (get_elem? f.states s)) [
    | inl e ↦ ground arith
    | inr (st, e) ↦ (st, e, ground arith)
  ]

  written : VectorFst W → ℕ → ℕ → Tr W → Tr W → VectorFstState W → VectorFst W
  written f s i old new st = record f {
    states = set f.states s (record st {
      trs = set st.trs i new;
      niepsilons = updated_epsilons st.niepsilons old.ilabel new.ilabel;
      noepsilons = updated_epsilons st.noepsilons old.olabel new.olabel;
    });
    properties = compute_new_properties_all f.properties old new;
  }

  with_tr_set-written :
      (f : VectorFst W) (s i : ℕ) (old new : Tr W) (st : VectorFstState W)
      → get_elem? f.states s ≡ some st
      → get_elem? st.trs i ≡ some old
      → with_tr_set f s i new ≡ written f s i old new st
  unfolding with_iter set_tr_unchecked written
  with_tr_set-written f s i old new st e k = ground (arith, e, k)

  pub with_tr_set-Replaces :
      (f : VectorFst W) (s i : ℕ) (old new : Tr W)
      → TrAt f s i old
      → Replaces f s i old new (with_tr_set f s i new)
  unfolding written
  with_tr_set-Replaces f s i old new h =
      let (st, e, k) = state_of_TrAt f s i old h in
      let g = written f s i old new st in
      let lt = get_elem?-lt f.states s e in
      subst (Replaces f s i old new) (sym (with_tr_set-written f s i old new st e k)) (record {
        place = h;
        trs = λ x. ground (arith, trs_of-set f g s _ lt refl x);
        finals = λ x. ground (arith, final_of-set f g s _ lt refl x);
        start = refl;
        size = length-set f.states s _;
        props = refl;
      })

  -- Replacing a transition by one with an existing target keeps a machine well formed. The epsilon
  -- counters, which would wrap around below zero, still count the epsilons.
  pub set_tr-IsValid :
      (f : VectorFst W) (s i : ℕ) (old new : Tr W)
      → IsValid f
      → TrAt f s i old
      → new.nextstate < num_states f
      → IsValid (with_iter f s (λ it. set_tr_unchecked it i new))
  unfolding written
  set_tr-IsValid f s i old new v h lt =
      let (st, e, k) = state_of_TrAt f s i old h in
      let c = v.counted s st e in
      subst IsValid (sym (with_tr_set-written f s i old new st e k)) (
        set-IsValid f (written f s i old new st) s _ v (get_elem?-lt f.states s e) refl refl
          (record {
            inputs = ground (arith, c.inputs, count_label-set (λ t. t.ilabel) st.trs i old new k);
            outputs = ground (arith, c.outputs, count_label-set (λ t. t.olabel) st.trs i old new k);
          })
          (λ j a q. elim (Bool-cases (i == j)) [
            | inl same ↦
                let r : new ≡ a =
                  ground (arith, get_elem?-set st.trs i j new (get_elem?-lt st.trs i k)) in
                subst (λ (t : Tr W). t.nextstate < num_states f) r lt
            | inr other ↦
                v.targets s j st a e
                  (ground (arith, get_elem?-set st.trs i j new (get_elem?-lt st.trs i k)))
          ]))
