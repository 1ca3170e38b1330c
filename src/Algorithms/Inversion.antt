-- ===== src/Algorithms/Inversion.antt =====
-- rustfst/src/algorithms/inversion.rs
pub mod Paths
use rustfst.Base.{
  ℕ, ◌≡◌, ◌≢◌, refl, sym, ◌∙◌, true, get_elem?, set, none, some, arith, Option-cases, inl, inr,
}
use rustfst.Tr.{Tr, eps_label}
use rustfst.Weights.{Semiring}
use rustfst.Props.{
  Flag, acceptor, not_acceptor, i_deterministic, not_i_deterministic, o_deterministic,
  not_o_deterministic, epsilons, no_epsilons, i_epsilons, no_i_epsilons, o_epsilons, no_o_epsilons,
  i_label_sorted, not_i_label_sorted, o_label_sorted, not_o_label_sorted,
}
use rustfst.Props.Masks.{all_properties}
use rustfst.Props.Transform.{invert_properties}
use rustfst.Fst.{VectorFstState, VectorFst}
use rustfst.Fst.Mutate.{set_properties_with_mask}
use rustfst.Fst.Valid.{IsValid}
use rustfst.Fst.Meaning.{Holds, IsSound}
use rustfst.Fst.Iter.{TrsIterMut, set_labels_unchecked, updated_epsilons}
use rustfst.Fst.Iter.Replace.{count_label-set}
use rustfst.Algorithms.Loops.{modify_at-set, modify_at-none}
use rustfst.Algorithms.Relabel.{
  for_each_tr, IsRelabelling, Relabels, for_each_tr-Relabels, for_each_tr-IsValid,
}
use rustfst.Algorithms.Labels.{
  Every-relabelled, Some-relabelled, Unique-relabelled, Repeated-relabelled, Sorted-relabelled,
  Unsorted-relabelled,
}
use rustfst.Algorithms.Shape.{SameShape, Relabels-SameShape, Holds-shape}

module _ {W : Type 0} where
  -- The body of the inner loop.
  unfoldable pub invert_tr : TrsIterMut W → ℕ → TrsIterMut W
  unfolding set_labels_unchecked
  invert_tr it idx = elim (get_elem? it.trs idx) [
    | none ↦ it
    | some tr ↦ set_labels_unchecked it idx tr.olabel tr.ilabel
  ]

  unfoldable pub invert : VectorFst W → VectorFst W
  unfolding for_each_tr set_properties_with_mask
  invert f =
      set_properties_with_mask (for_each_tr invert_tr f) (invert_properties f.properties)
        all_properties

  abbrev pub inverted : Tr W → Tr W
  inverted tr = record tr { ilabel = tr.olabel; olabel = tr.ilabel }

  invert_fields : VectorFstState W → ℕ → VectorFstState W
  invert_fields st i = elim (get_elem? st.trs i) [
    | none ↦ st
    | some a ↦ record st {
      trs = set st.trs i (inverted a);
      niepsilons = updated_epsilons st.niepsilons a.ilabel a.olabel;
      noepsilons = updated_epsilons st.noepsilons a.olabel a.ilabel;
    }
  ]

  invert_tr-IsRelabelling : IsRelabelling inverted invert_tr
  unfolding invert_tr set_labels_unchecked invert_fields
  invert_tr-IsRelabelling = record {
    on_fields = invert_fields;
    lends = λ st it i. elim (Option-cases (get_elem? it.trs i)) [
      | inl e ↦ ground arith
      | inr (a, e) ↦ ground arith
    ];
    trs = λ st i. elim (Option-cases (get_elem? st.trs i)) [
      | inl e ↦ ground (arith, modify_at-none inverted st.trs i e)
      | inr (a, e) ↦ ground (arith, modify_at-set inverted st.trs i a e)
    ];
    final = λ st i. elim (Option-cases (get_elem? st.trs i)) [
      | inl e ↦ ground arith
      | inr (a, e) ↦ ground arith
    ];
    counted = λ st i c. elim (Option-cases (get_elem? st.trs i)) [
      | inl e ↦ rw (invert_fields, e) c
      | inr (a, e) ↦
          rw (invert_fields, e)
            (record {
              inputs =
                  ground
                    (arith, c.inputs, count_label-set (λ t. t.ilabel) st.trs i a (inverted a) e);
              outputs =
                  ground
                    (arith, c.outputs, count_label-set (λ t. t.olabel) st.trs i a (inverted a) e);
            })
    ];
  }

  -- The loops of `invert` swap the labels of every transition.
  invert_loop-Relabels : (f : VectorFst W) → Relabels inverted f (for_each_tr invert_tr f)
  invert_loop-Relabels f = for_each_tr-Relabels invert_tr-IsRelabelling f

  pub invert-Relabels : (f : VectorFst W) → Relabels inverted f (invert f)
  unfolding invert set_properties_with_mask
  invert-Relabels f =
      let r = invert_loop-Relabels f in
      record { trs = r.trs; finals = r.finals; start = r.start; size = r.size }

  invert-IsValid : (f : VectorFst W) → IsValid f → IsValid (invert f)
  unfolding invert set_properties_with_mask
  invert-IsValid f v =
      let u = for_each_tr-IsValid invert_tr-IsRelabelling f (λ a. refl) v in
      record { start_exists = u.start_exists; counted = u.counted; targets = u.targets }

module _ {W : Type 0} ⦃sr : Semiring W⦄ {f g : VectorFst W} (r : Relabels inverted f g)
    (sound : IsSound f) where
  shape : SameShape f g
  shape = Relabels-SameShape (λ a. refl) (λ a. refl) r

  inverted_flags : (flag : Flag) → invert_properties f.properties flag ≡ true → Holds flag g
  unfolding invert_properties
  inverted_flags acceptor k =
      Every-relabelled r (λ _ a. a.ilabel ≡ a.olabel) _ (λ x a e. sym e)
        (sound acceptor (ground arith))
  inverted_flags not_acceptor k =
      Some-relabelled r (λ _ a. a.ilabel ≢ a.olabel) _ (λ x a e q. e (sym q))
        (sound not_acceptor (ground arith))
  inverted_flags i_deterministic k =
      Unique-relabelled r (λ a. a.olabel) _ (λ a. refl) (sound o_deterministic (ground arith))
  inverted_flags o_deterministic k =
      Unique-relabelled r (λ a. a.ilabel) _ (λ a. refl) (sound i_deterministic (ground arith))
  inverted_flags not_i_deterministic k =
      Repeated-relabelled r (λ a. a.olabel) _ (λ a. refl) (sound not_o_deterministic (ground arith))
  inverted_flags not_o_deterministic k =
      Repeated-relabelled r (λ a. a.ilabel) _ (λ a. refl) (sound not_i_deterministic (ground arith))
  inverted_flags epsilons k =
      Some-relabelled r (λ _ a. (a.ilabel ≡ eps_label) × (a.olabel ≡ eps_label)) _
        (λ x a (p, q). (q, p)) (sound epsilons (ground arith))
  inverted_flags no_epsilons k =
      Every-relabelled r (λ _ a. ¬ ((a.ilabel ≡ eps_label) × (a.olabel ≡ eps_label))) _
        (λ x a never (p, q). never (q, p)) (sound no_epsilons (ground arith))
  inverted_flags i_epsilons k =
      Some-relabelled r (λ _ a. a.olabel ≡ eps_label) _ (λ x a e. e)
        (sound o_epsilons (ground arith))
  inverted_flags no_i_epsilons k =
      Every-relabelled r (λ _ a. a.olabel ≢ eps_label) _ (λ x a e. e)
        (sound no_o_epsilons (ground arith))
  inverted_flags o_epsilons k =
      Some-relabelled r (λ _ a. a.ilabel ≡ eps_label) _ (λ x a e. e)
        (sound i_epsilons (ground arith))
  inverted_flags no_o_epsilons k =
      Every-relabelled r (λ _ a. a.ilabel ≢ eps_label) _ (λ x a e. e)
        (sound no_i_epsilons (ground arith))
  inverted_flags i_label_sorted k =
      Sorted-relabelled r (λ a. a.olabel) _ (λ a. refl) (sound o_label_sorted (ground arith))
  inverted_flags not_i_label_sorted k =
      Unsorted-relabelled r (λ a. a.olabel) _ (λ a. refl) (sound not_o_label_sorted (ground arith))
  inverted_flags o_label_sorted k =
      Sorted-relabelled r (λ a. a.ilabel) _ (λ a. refl) (sound i_label_sorted (ground arith))
  inverted_flags not_o_label_sorted k =
      Unsorted-relabelled r (λ a. a.ilabel) _ (λ a. refl) (sound not_i_label_sorted (ground arith))
  inverted_flags flag k = Holds-shape shape flag (ground arith) (sound flag (ground arith))

invert-props :
    {W : Type 0} (f : VectorFst W) (flag : Flag)
    → (invert f).properties flag ≡ invert_properties f.properties flag
unfolding invert set_properties_with_mask
invert-props f flag = ground arith

-- `invert` swaps the labels of every transition and changes nothing else of states, start and final
-- weights; it keeps a machine well formed, and each flag that it sets is true if the old ones were.
pub invert_lem :
    {W : Type 0} ⦃sr : Semiring W⦄ (f : VectorFst W)
    → IsValid f
    → IsSound f
    → Relabels inverted f (invert f) × IsValid (invert f) × IsSound (invert f)
invert_lem f v sound =
    let r = invert-Relabels f in
    (r, invert-IsValid f v, λ flag k. inverted_flags r sound flag (sym (invert-props f flag) ∙ k))
