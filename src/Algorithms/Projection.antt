-- ===== src/Algorithms/Projection.antt =====
-- rustfst/src/algorithms/projection.rs
pub mod Flags
use rustfst.Base.{
  ℕ, zero, suc, ◌+◌, ◌<◌, ◌≤◌, ◌≡◌, ◌≢◌, refl, ap, sym, subst, ◌∙◌, Bool, true, false, List, [],
  ◌∷◌, map, get_elem?, get_elem?-map, set, Option, none, some, arith, Option-cases, inl, inr,
}
use mathlib.Core.Option
use rustfst.Tr.{Tr, eps_label}
use rustfst.Weights.{Semiring}
use rustfst.Props.{
  Flag, FstProperties, acceptor, not_acceptor, i_deterministic, not_i_deterministic,
  o_deterministic, not_o_deterministic, epsilons, no_epsilons, i_epsilons, no_i_epsilons,
  o_epsilons, no_o_epsilons, i_label_sorted, not_i_label_sorted, o_label_sorted, not_o_label_sorted,
}
use rustfst.Props.Masks.{all_properties}
use rustfst.Props.Transform.{ProjectType, project_input, project_output, project_properties}
use rustfst.Fst.{VectorFstState, VectorFst, trs_of, final_of, TrAt}
use rustfst.Fst.Mutate.{set_properties_with_mask, count_label}
use rustfst.Fst.Valid.{IsValid}
use rustfst.Fst.Meaning.{Holds, IsSound}
use rustfst.Fst.Iter.{TrsIterMut, set_ilabel_unchecked, set_olabel_unchecked, updated_epsilons}
use rustfst.Fst.Iter.Replace.{count_label-set, count_label-pos}
use rustfst.Algorithms.Loops.{modify_at-set, modify_at-none}
use rustfst.Algorithms.Relabel.{
  for_each_tr, lend, IsRelabelling, Relabels, TrAt-original, for_each_tr-Relabels, TrAt-original,
  for_each_tr-IsValid,
}
use rustfst.Algorithms.Labels.{
  Every-relabelled, Some-relabelled, Unique-relabelled, Repeated-relabelled, Sorted-relabelled,
  Unsorted-relabelled,
}
use rustfst.Algorithms.Shape.{SameShape, Relabels-SameShape, unlabelled, Holds-shape}

module _ {W : Type 0} where
  -- The body of the inner loop of `ProjectInput`.
  unfoldable pub input_tr : TrsIterMut W → ℕ → TrsIterMut W
  unfolding set_olabel_unchecked
  input_tr it idx = elim (get_elem? it.trs idx) [
    | none ↦ it
    | some tr ↦ set_olabel_unchecked it idx tr.ilabel
  ]

  abbrev pub input_only : Tr W → Tr W
  input_only tr = record tr { olabel = tr.ilabel }

  input_fields : VectorFstState W → ℕ → VectorFstState W
  input_fields st i = elim (get_elem? st.trs i) [
    | none ↦ st
    | some a ↦ record st {
      trs = set st.trs i (input_only a);
      noepsilons = updated_epsilons st.noepsilons a.olabel a.ilabel;
    }
  ]

  input_tr-IsRelabelling : IsRelabelling input_only input_tr
  unfolding input_tr set_olabel_unchecked input_fields
  input_tr-IsRelabelling = record {
    on_fields = input_fields;
    lends = λ st it i. elim (Option-cases (get_elem? it.trs i)) [
      | inl e ↦ ground arith
      | inr (a, e) ↦ ground arith
    ];
    trs = λ st i. elim (Option-cases (get_elem? st.trs i)) [
      | inl e ↦ ground (arith, modify_at-none input_only st.trs i e)
      | inr (a, e) ↦ ground (arith, modify_at-set input_only st.trs i a e)
    ];
    final = λ st i. elim (Option-cases (get_elem? st.trs i)) [
      | inl e ↦ ground arith
      | inr (a, e) ↦ ground arith
    ];
    counted = λ st i c. elim (Option-cases (get_elem? st.trs i)) [
      | inl e ↦ rw (input_fields, e) c
      | inr (a, e) ↦
          rw (input_fields, e)
            (record {
              inputs = ground (
                arith,
                c.inputs,
                count_label-pos (λ t. t.ilabel) st.trs i a e,
                count_label-set (λ t. t.ilabel) st.trs i a (input_only a) e,
              );
              outputs = ground (
                arith,
                c.outputs,
                count_label-pos (λ t. t.olabel) st.trs i a e,
                count_label-set (λ t. t.olabel) st.trs i a (input_only a) e,
              );
            })
    ];
  }

  -- The body of the inner loop of `ProjectOutput`.
  unfoldable pub output_tr : TrsIterMut W → ℕ → TrsIterMut W
  unfolding set_ilabel_unchecked
  output_tr it idx = elim (get_elem? it.trs idx) [
    | none ↦ it
    | some tr ↦ set_ilabel_unchecked it idx tr.olabel
  ]

  abbrev pub output_only : Tr W → Tr W
  output_only tr = record tr { ilabel = tr.olabel }

  output_fields : VectorFstState W → ℕ → VectorFstState W
  output_fields st i = elim (get_elem? st.trs i) [
    | none ↦ st
    | some a ↦ record st {
      trs = set st.trs i (output_only a);
      niepsilons = updated_epsilons st.niepsilons a.ilabel a.olabel;
    }
  ]

  output_tr-IsRelabelling : IsRelabelling output_only output_tr
  unfolding output_tr set_ilabel_unchecked output_fields
  output_tr-IsRelabelling = record {
    on_fields = output_fields;
    lends = λ st it i. elim (Option-cases (get_elem? it.trs i)) [
      | inl e ↦ ground arith
      | inr (a, e) ↦ ground arith
    ];
    trs = λ st i. elim (Option-cases (get_elem? st.trs i)) [
      | inl e ↦ ground (arith, modify_at-none output_only st.trs i e)
      | inr (a, e) ↦ ground (arith, modify_at-set output_only st.trs i a e)
    ];
    final = λ st i. elim (Option-cases (get_elem? st.trs i)) [
      | inl e ↦ ground arith
      | inr (a, e) ↦ ground arith
    ];
    counted = λ st i c. elim (Option-cases (get_elem? st.trs i)) [
      | inl e ↦ rw (output_fields, e) c
      | inr (a, e) ↦
          rw (output_fields, e)
            (record {
              inputs = ground (
                arith,
                c.inputs,
                count_label-pos (λ t. t.ilabel) st.trs i a e,
                count_label-set (λ t. t.ilabel) st.trs i a (output_only a) e,
              );
              outputs = ground (
                arith,
                c.outputs,
                count_label-pos (λ t. t.olabel) st.trs i a e,
                count_label-set (λ t. t.olabel) st.trs i a (output_only a) e,
              );
            })
    ];
  }

  unfoldable pub project : VectorFst W → ProjectType → VectorFst W
  unfolding for_each_tr set_properties_with_mask
  project f project_input =
      set_properties_with_mask (for_each_tr input_tr f)
        (project_properties f.properties project_input) all_properties
  project f project_output =
      set_properties_with_mask (for_each_tr output_tr f)
        (project_properties f.properties project_output) all_properties

  -- The transition that the projection makes of one.
  abbrev pub projected : ProjectType → Tr W → Tr W
  projected project_input = input_only
  projected project_output = output_only

  pub project-Relabels :
      (f : VectorFst W) (t : ProjectType) → Relabels (projected t) f (project f t)
  unfolding project set_properties_with_mask
  project-Relabels f project_input =
      let r = for_each_tr-Relabels input_tr-IsRelabelling f in
      record { trs = r.trs; finals = r.finals; start = r.start; size = r.size }
  project-Relabels f project_output =
      let r = for_each_tr-Relabels output_tr-IsRelabelling f in
      record { trs = r.trs; finals = r.finals; start = r.start; size = r.size }

  pub project-IsValid : (f : VectorFst W) (t : ProjectType) → IsValid f → IsValid (project f t)
  unfolding project set_properties_with_mask
  project-IsValid f project_input v =
      let u = for_each_tr-IsValid input_tr-IsRelabelling f (λ a. refl) v in
      record { start_exists = u.start_exists; counted = u.counted; targets = u.targets }
  project-IsValid f project_output v =
      let u = for_each_tr-IsValid output_tr-IsRelabelling f (λ a. refl) v in
      record { start_exists = u.start_exists; counted = u.counted; targets = u.targets }

  pub project-props :
      (f : VectorFst W) (t : ProjectType) (flag : Flag)
      → (project f t).properties flag ≡ project_properties f.properties t flag
  unfolding project set_properties_with_mask
  project-props f project_input flag = ground arith
  project-props f project_output flag = ground arith
