-- ===== src/Algorithms/Relabel.antt =====
-- The loop over every transition that rustfst/src/algorithms/{inversion,projection}.rs share: for each
-- state, the iterator over its transitions, and for each index a change of the labels.
use rustfst.Base.{
  ℕ, ◌≡◌, refl, ap, sym, subst, ◌∙◌, List, length, map, length-map, get_elem?, get_elem?-map, set,
  some, arith, Option-cases, inl, inr,
}
use mathlib.Core.Option
use rustfst.Tr.{Tr}
use rustfst.Fst.{VectorFstState, VectorFst, num_states, trs_of, final_of, TrAt}
use rustfst.Fst.Valid.{IsCounted, IsValid}
use rustfst.Fst.Iter.{TrsIterMut, with_iter}
use rustfst.Algorithms.Loops.{
  for_range, for_range-keeps, for_range-view, modify_at, modify_at-set, modify_at-none,
  for_range-map,
}

module _ {W : Type 0} where
  abbrev pub over_state : (TrsIterMut W → ℕ → TrsIterMut W) → VectorFst W → ℕ → VectorFst W
  over_state body f s = with_iter f s (λ it. for_range body 0 (length it.trs) it)

  unfoldable pub for_each_tr : (TrsIterMut W → ℕ → TrsIterMut W) → VectorFst W → VectorFst W
  for_each_tr body f = for_range (over_state body) 0 (num_states f) f

  -- The state with the fields that an iterator borrows.
  abbrev pub lend : VectorFstState W → TrsIterMut W → VectorFstState W
  lend st it = record st { trs = it.trs; niepsilons = it.niepsilons; noepsilons = it.noepsilons }

  -- A body that changes the transition at its index by `h`, and what it makes of the state.
  pub record IsRelabelling (h : Tr W → Tr W) (body : TrsIterMut W → ℕ → TrsIterMut W) : Type 0 where
    pub on_fields : VectorFstState W → ℕ → VectorFstState W
    pub lends :
        (st : VectorFstState W) (it : TrsIterMut W) (i : ℕ)
        → lend st (body it i) ≡ on_fields (lend st it) i
    pub trs : (st : VectorFstState W) (i : ℕ) → (on_fields st i).trs ≡ modify_at h st.trs i
    pub final : (st : VectorFstState W) (i : ℕ) → (on_fields st i).final_weight ≡ st.final_weight
    pub counted : (st : VectorFstState W) (i : ℕ) → IsCounted st → IsCounted (on_fields st i)

  -- Every transition is changed by `h`, and all else stays.
  pub record Relabels (h : Tr W → Tr W) (f g : VectorFst W) : Type 0 where
    pub trs : (x : ℕ) → trs_of g x ≡ map h (trs_of f x)
    pub finals : (x : ℕ) → final_of g x ≡ final_of f x
    pub start : g.start_state ≡ f.start_state
    pub size : num_states g ≡ num_states f

module _ {W : Type 0} {h : Tr W → Tr W} {f g : VectorFst W} (r : Relabels h f g) where
  pub TrAt-relabelled : (x i : ℕ) (a : Tr W) → TrAt f x i a → TrAt g x i (h a)
  TrAt-relabelled x i a e = ground (arith, r.trs x, get_elem?-map h (trs_of f x) i)

  pub TrAt-original : (x i : ℕ) (b : Tr W) → TrAt g x i b → (a : Tr W) × TrAt f x i a × (h a ≡ b)
  TrAt-original x i b e = elim (Option-cases (get_elem? (trs_of f x) i)) [
    | inl m ↦ absurd (ground (arith, r.trs x, get_elem?-map h (trs_of f x) i))
    | inr (a, m) ↦ (a, m, ground (arith, r.trs x, get_elem?-map h (trs_of f x) i))
  ]

module _ {W : Type 0} {h : Tr W → Tr W} {body : TrsIterMut W → ℕ → TrsIterMut W}
    (rel : IsRelabelling h body) where
  relabelled : VectorFstState W → VectorFstState W
  relabelled st = for_range rel.on_fields 0 (length st.trs) st

  relabelled-trs : (st : VectorFstState W) → (relabelled st).trs ≡ map h st.trs
  unfolding relabelled
  relabelled-trs st =
      for_range-view rel.on_fields (modify_at h) (λ (u : VectorFstState W). u.trs) rel.trs 0
        (length st.trs) st
      ∙ for_range-map h st.trs

  relabelled-final : (st : VectorFstState W) → (relabelled st).final_weight ≡ st.final_weight
  unfolding relabelled
  relabelled-final st =
      for_range-keeps rel.on_fields (λ (u : VectorFstState W). u.final_weight ≡ st.final_weight)
        (λ u i e. rel.final u i ∙ e) 0 (length st.trs) st refl

  relabelled-IsCounted : (st : VectorFstState W) → IsCounted st → IsCounted (relabelled st)
  unfolding relabelled
  relabelled-IsCounted st c =
      for_range-keeps rel.on_fields IsCounted rel.counted 0 (length st.trs) st c

  over_state-states :
      (f : VectorFst W) (s : ℕ) → (over_state body f s).states ≡ modify_at relabelled f.states s
  unfolding with_iter relabelled
  over_state-states f s = elim (Option-cases (get_elem? f.states s)) [
    | inl e ↦ ground (arith, modify_at-none relabelled f.states s e)
    | inr (st, e) ↦
        let it : TrsIterMut W = record {
          trs = st.trs;
          properties = f.properties;
          niepsilons = st.niepsilons;
          noepsilons = st.noepsilons;
        } in
        let done : lend st (for_range body 0 (length st.trs) it) ≡ relabelled st =
          for_range-view body rel.on_fields (lend st) (rel.lends st) 0 (length st.trs) it in
        ground (arith, e, ap (set f.states s) done, modify_at-set relabelled f.states s st e)
  ]

  for_each_tr-states : (f : VectorFst W) → (for_each_tr body f).states ≡ map relabelled f.states
  unfolding for_each_tr
  for_each_tr-states f =
      for_range-view (over_state body) (modify_at relabelled) (λ (g : VectorFst W). g.states)
        over_state-states 0 (num_states f) f
      ∙ for_range-map relabelled f.states

  for_each_tr-start : (f : VectorFst W) → (for_each_tr body f).start_state ≡ f.start_state
  unfolding for_each_tr with_iter
  for_each_tr-start f =
      for_range-keeps (over_state body) (λ (g : VectorFst W). g.start_state ≡ f.start_state)
        (λ g s e. elim (Option-cases (get_elem? g.states s)) [
          | inl k ↦ ground arith
          | inr (st, k) ↦ ground arith
        ])
        0 (num_states f) f refl

  state_at :
      (f : VectorFst W) (x : ℕ)
      → get_elem? (for_each_tr body f).states x ≡ Option.map relabelled (get_elem? f.states x)
  state_at f x =
      ap (λ (l : List (VectorFstState W)). get_elem? l x) (for_each_tr-states f)
      ∙ get_elem?-map relabelled f.states x

  pub for_each_tr-Relabels : (f : VectorFst W) → Relabels h f (for_each_tr body f)
  for_each_tr-Relabels f = record {
    trs = λ x. elim (Option-cases (get_elem? f.states x)) [
      | inl e ↦ ground (arith, state_at f x)
      | inr (st, e) ↦ ground (arith, state_at f x, relabelled-trs st)
    ];
    finals = λ x. elim (Option-cases (get_elem? f.states x)) [
      | inl e ↦ ground (arith, state_at f x)
      | inr (st, e) ↦ ground (arith, state_at f x, relabelled-final st)
    ];
    start = for_each_tr-start f;
    size = ap length (for_each_tr-states f) ∙ length-map relabelled f.states;
  }

  -- A relabelling that keeps the targets keeps a machine well formed.
  pub for_each_tr-IsValid :
      (f : VectorFst W)
      → ((a : Tr W) → (h a).nextstate ≡ a.nextstate)
      → IsValid f
      → IsValid (for_each_tr body f)
  for_each_tr-IsValid f same v =
      let r = for_each_tr-Relabels f in
      record {
        start_exists = λ s e. omega (arith, r.size, v.start_exists s (sym r.start ∙ e));
        counted = λ x u e. elim (Option-cases (get_elem? f.states x)) [
          | inl k ↦ absurd (ground (arith, state_at f x))
          | inr (st, k) ↦
              subst IsCounted (ground (arith, state_at f x))
                (relabelled-IsCounted st (v.counted x st k))
        ];
        targets = λ x i u a e k. elim (Option-cases (get_elem? f.states x)) [
          | inl q ↦ absurd (ground (arith, state_at f x))
          | inr (st, q) ↦
              let p : relabelled st ≡ u = ground (arith, state_at f x) in
              let at : get_elem? (map h st.trs) i ≡ some a =
                subst (λ (l : List (Tr W)). get_elem? l i ≡ some a) (relabelled-trs st)
                  (subst (λ (w : VectorFstState W). get_elem? w.trs i ≡ some a) (sym p) k) in
              elim (Option-cases (get_elem? st.trs i)) [
                | inl m ↦ absurd (ground (arith, get_elem?-map h st.trs i))
                | inr (b, m) ↦
                    let c : h b ≡ a = ground (arith, get_elem?-map h st.trs i) in
                    let d : a.nextstate ≡ b.nextstate =
                      ap (λ (t : Tr W). t.nextstate) (sym c) ∙ same b in
                    omega (arith, d, r.size, v.targets x i st b q m)
              ]
        ];
      }
