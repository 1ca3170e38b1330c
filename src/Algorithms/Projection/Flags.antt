-- ===== src/Algorithms/Projection/Flags.antt =====
-- The properties after `project`.
use rustfst.Base.{◌≡◌, ◌≢◌, refl, sym, subst, ◌∙◌, true, arith}
use rustfst.Tr.{Tr, eps_label}
use rustfst.Weights.{Semiring}
use rustfst.Props.{
  Flag, acceptor, not_acceptor, i_deterministic, not_i_deterministic, o_deterministic,
  not_o_deterministic, epsilons, no_epsilons, i_epsilons, no_i_epsilons, o_epsilons, no_o_epsilons,
  i_label_sorted, not_i_label_sorted, o_label_sorted, not_o_label_sorted,
}
use rustfst.Props.Transform.{ProjectType, project_input, project_output, project_properties}
use rustfst.Fst.{VectorFst}
use rustfst.Fst.Valid.{IsValid}
use rustfst.Fst.Meaning.{Holds, IsSound}
use rustfst.Algorithms.Relabel.{Relabels, TrAt-original, TrAt-original}
use rustfst.Algorithms.Labels.{
  Every-relabelled, Some-relabelled, Unique-relabelled, Repeated-relabelled, Sorted-relabelled,
  Unsorted-relabelled,
}
use rustfst.Algorithms.Shape.{SameShape, Relabels-SameShape, Holds-shape}
use rustfst.Algorithms.Projection.{
  project, projected, input_only, output_only, project-Relabels, project-IsValid, project-props,
}

module _ {W : Type 0} ⦃sr : Semiring W⦄ {f g : VectorFst W} (r : Relabels input_only f g)
    (sound : IsSound f) where
  input_shape : SameShape f g
  input_shape = Relabels-SameShape (λ a. refl) (λ a. refl) r

  input_flags :
      (flag : Flag) → project_properties f.properties project_input flag ≡ true → Holds flag g
  unfolding project_properties
  input_flags acceptor k = λ x i b e.
      let (a, at, q) = TrAt-original r x i b e in subst (λ (t : Tr W). t.ilabel ≡ t.olabel) q refl
  input_flags i_deterministic k =
      Unique-relabelled r (λ a. a.ilabel) _ (λ a. refl) (sound i_deterministic (ground arith))
  input_flags not_i_deterministic k =
      Repeated-relabelled r (λ a. a.ilabel) _ (λ a. refl) (sound not_i_deterministic (ground arith))
  input_flags i_epsilons k =
      Some-relabelled r (λ _ a. a.ilabel ≡ eps_label) _ (λ x a e. e)
        (sound i_epsilons (ground arith))
  input_flags no_i_epsilons k =
      Every-relabelled r (λ _ a. a.ilabel ≢ eps_label) _ (λ x a e. e)
        (sound no_i_epsilons (ground arith))
  input_flags i_label_sorted k =
      Sorted-relabelled r (λ a. a.ilabel) _ (λ a. refl) (sound i_label_sorted (ground arith))
  input_flags not_i_label_sorted k =
      Unsorted-relabelled r (λ a. a.ilabel) _ (λ a. refl) (sound not_i_label_sorted (ground arith))
  input_flags o_deterministic k =
      Unique-relabelled r (λ a. a.ilabel) _ (λ a. refl) (sound i_deterministic (ground arith))
  input_flags not_o_deterministic k =
      Repeated-relabelled r (λ a. a.ilabel) _ (λ a. refl) (sound not_i_deterministic (ground arith))
  input_flags o_epsilons k =
      Some-relabelled r (λ _ a. a.ilabel ≡ eps_label) _ (λ x a e. e)
        (sound i_epsilons (ground arith))
  input_flags no_o_epsilons k =
      Every-relabelled r (λ _ a. a.ilabel ≢ eps_label) _ (λ x a e. e)
        (sound no_i_epsilons (ground arith))
  input_flags o_label_sorted k =
      Sorted-relabelled r (λ a. a.ilabel) _ (λ a. refl) (sound i_label_sorted (ground arith))
  input_flags not_o_label_sorted k =
      Unsorted-relabelled r (λ a. a.ilabel) _ (λ a. refl) (sound not_i_label_sorted (ground arith))
  input_flags epsilons k =
      Some-relabelled r (λ _ a. a.ilabel ≡ eps_label) _ (λ x a e. (e, e))
        (sound i_epsilons (ground arith))
  input_flags no_epsilons k =
      Every-relabelled r (λ _ a. a.ilabel ≢ eps_label) _ (λ x a e (p, q). e p)
        (sound no_i_epsilons (ground arith))
  input_flags not_acceptor k = absurd (ground arith)
  input_flags flag k = Holds-shape input_shape flag (ground arith) (sound flag (ground arith))

module _ {W : Type 0} ⦃sr : Semiring W⦄ {f g : VectorFst W} (r : Relabels output_only f g)
    (sound : IsSound f) where
  output_shape : SameShape f g
  output_shape = Relabels-SameShape (λ a. refl) (λ a. refl) r

  output_flags :
      (flag : Flag) → project_properties f.properties project_output flag ≡ true → Holds flag g
  unfolding project_properties
  output_flags acceptor k = λ x i b e.
      let (a, at, q) = TrAt-original r x i b e in subst (λ (t : Tr W). t.ilabel ≡ t.olabel) q refl
  output_flags o_deterministic k =
      Unique-relabelled r (λ a. a.olabel) _ (λ a. refl) (sound o_deterministic (ground arith))
  output_flags not_o_deterministic k =
      Repeated-relabelled r (λ a. a.olabel) _ (λ a. refl) (sound not_o_deterministic (ground arith))
  output_flags o_epsilons k =
      Some-relabelled r (λ _ a. a.olabel ≡ eps_label) _ (λ x a e. e)
        (sound o_epsilons (ground arith))
  output_flags no_o_epsilons k =
      Every-relabelled r (λ _ a. a.olabel ≢ eps_label) _ (λ x a e. e)
        (sound no_o_epsilons (ground arith))
  output_flags o_label_sorted k =
      Sorted-relabelled r (λ a. a.olabel) _ (λ a. refl) (sound o_label_sorted (ground arith))
  output_flags not_o_label_sorted k =
      Unsorted-relabelled r (λ a. a.olabel) _ (λ a. refl) (sound not_o_label_sorted (ground arith))
  output_flags i_deterministic k =
      Unique-relabelled r (λ a. a.olabel) _ (λ a. refl) (sound o_deterministic (ground arith))
  output_flags not_i_deterministic k =
      Repeated-relabelled r (λ a. a.olabel) _ (λ a. refl) (sound not_o_deterministic (ground arith))
  output_flags i_epsilons k =
      Some-relabelled r (λ _ a. a.olabel ≡ eps_label) _ (λ x a e. e)
        (sound o_epsilons (ground arith))
  output_flags no_i_epsilons k =
      Every-relabelled r (λ _ a. a.olabel ≢ eps_label) _ (λ x a e. e)
        (sound no_o_epsilons (ground arith))
  output_flags i_label_sorted k =
      Sorted-relabelled r (λ a. a.olabel) _ (λ a. refl) (sound o_label_sorted (ground arith))
  output_flags not_i_label_sorted k =
      Unsorted-relabelled r (λ a. a.olabel) _ (λ a. refl) (sound not_o_label_sorted (ground arith))
  output_flags epsilons k =
      Some-relabelled r (λ _ a. a.olabel ≡ eps_label) _ (λ x a e. (e, e))
        (sound o_epsilons (ground arith))
  output_flags no_epsilons k =
      Every-relabelled r (λ _ a. a.olabel ≢ eps_label) _ (λ x a e (p, q). e p)
        (sound no_o_epsilons (ground arith))
  output_flags not_acceptor k = absurd (ground arith)
  output_flags flag k = Holds-shape output_shape flag (ground arith) (sound flag (ground arith))

project-IsSound :
    {W : Type 0} ⦃sr : Semiring W⦄ (f : VectorFst W) (t : ProjectType)
    → IsSound f
    → IsSound (project f t)
project-IsSound f project_input sound flag k =
    input_flags (project-Relabels f project_input) sound flag
      (sym (project-props f project_input flag) ∙ k)
project-IsSound f project_output sound flag k =
    output_flags (project-Relabels f project_output) sound flag
      (sym (project-props f project_output flag) ∙ k)

-- `project` copies the input label of every transition to its output label, or the other way round,
-- and changes nothing else of states, start and final weights; it keeps a machine well formed, and each
-- flag that it sets is true if the old ones were.
pub project_lem :
    {W : Type 0} ⦃sr : Semiring W⦄ (f : VectorFst W) (t : ProjectType)
    → IsValid f
    → IsSound f
    → Relabels (projected t) f (project f t) × IsValid (project f t) × IsSound (project f t)
project_lem f t v sound = (project-Relabels f t, project-IsValid f t v, project-IsSound f t sound)
