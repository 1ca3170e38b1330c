-- ===== src/Props/Update.antt =====
-- fst_properties/mutate_properties.rs: the properties after each change of a machine. Each `let` is one
-- statement of the source.
use rustfst.Base.{ℕ, ◌==◌, ltb, leb, Bool, false, not, ◌&&◌, [], ◌∷◌, Option, none, some}
use rustfst.Tr.{Tr, eps_label}
use rustfst.Weights.{Semiring, is_weighted}
use rustfst.Props.{
  FstProperties, ◌∪◌, ◌∩◌, mask, add_if, remove_if, turn, acceptor, not_acceptor, epsilons,
  no_epsilons, i_epsilons, no_i_epsilons, o_epsilons, no_o_epsilons, i_label_sorted,
  not_i_label_sorted, o_label_sorted, not_o_label_sorted, weighted, unweighted, acyclic,
  initial_acyclic, top_sorted, not_top_sorted,
}
use rustfst.Props.Masks

unfoldable pub set_start_properties : FstProperties → FstProperties
set_start_properties inprops =
    add_if (inprops acyclic) (mask (initial_acyclic ∷ [])) (Masks.set_start_properties ∩ inprops)

unfoldable pub add_state_properties : FstProperties → FstProperties
add_state_properties inprops = Masks.add_state_properties ∩ inprops

unfoldable pub delete_states_properties : FstProperties → FstProperties
delete_states_properties inprops = Masks.delete_states_properties ∩ inprops

unfoldable pub delete_all_states_properties : FstProperties
delete_all_states_properties = Masks.null_properties

unfoldable pub delete_trs_properties : FstProperties → FstProperties
delete_trs_properties inprops = Masks.delete_arcs_properties ∩ inprops

module _ {ℓ} {W : Type ℓ} ⦃s : Semiring W⦄ where
  -- `if let Some(w) = weight { if !w.is_zero() && !w.is_one()`
  unfoldable pub weighted_option : Option W → Bool
  weighted_option none = false
  weighted_option (some w) = is_weighted w

  unfoldable pub set_final_properties : FstProperties → Option W → Option W → FstProperties
  set_final_properties inprops old_weight new_weight =
      let p1 = remove_if (weighted_option old_weight) (mask (weighted ∷ [])) inprops in
      let p2 = turn (weighted_option new_weight) weighted unweighted p1 in
      (Masks.set_final_properties ∪ mask (weighted ∷ unweighted ∷ [])) ∩ p2

  -- `prev_tr.ilabel > tr.ilabel`, with no transition before the first.
  unfoldable pub ilabel_falls : Option (Tr W) → Tr W → Bool
  ilabel_falls none tr = false
  ilabel_falls (some prev) tr = ltb tr.ilabel prev.ilabel

  unfoldable pub olabel_falls : Option (Tr W) → Tr W → Bool
  olabel_falls none tr = false
  olabel_falls (some prev) tr = ltb tr.olabel prev.olabel

  unfoldable pub add_tr_properties : FstProperties → ℕ → Tr W → Option (Tr W) → FstProperties
  unfolding ilabel_falls olabel_falls
  add_tr_properties inprops state tr prev_tr =
      let i_eps = tr.ilabel == eps_label in
      let o_eps = tr.olabel == eps_label in
      let p1 = turn (not (tr.ilabel == tr.olabel)) not_acceptor acceptor inprops in
      let p2 = turn i_eps i_epsilons no_i_epsilons p1 in
      let p3 = turn (i_eps && o_eps) epsilons no_epsilons p2 in
      let p4 = turn o_eps o_epsilons no_o_epsilons p3 in
      let p5 = turn (ilabel_falls prev_tr tr) not_i_label_sorted i_label_sorted p4 in
      let p6 = turn (olabel_falls prev_tr tr) not_o_label_sorted o_label_sorted p5 in
      let p7 = turn (is_weighted tr.weight) weighted unweighted p6 in
      let p8 = turn (leb tr.nextstate state) not_top_sorted top_sorted p7 in
      let p9 =
        (Masks.add_arc_properties
          ∪ mask (
              acceptor ∷ no_epsilons ∷ no_i_epsilons ∷ no_o_epsilons ∷ i_label_sorted
              ∷ o_label_sorted ∷ unweighted ∷ top_sorted ∷ []))
        ∩ p8 in
      add_if (p9 top_sorted) (mask (acyclic ∷ initial_acyclic ∷ [])) p9
