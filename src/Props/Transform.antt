-- ===== src/Props/Transform.antt =====
-- fst_properties/mutate_properties.rs: the properties of the results of algorithms. A nested test is
-- written as a conjunction, and each `outprops |= …` is one `let`.
use rustfst.Base.{Bool, not, ◌&&◌, ◌||◌, [], ◌∷◌}
use rustfst.Props.{
  FstProperties, ◌∪◌, ◌∩◌, ◌∖◌, mask, empty, add_if, acceptor, not_acceptor, i_deterministic,
  not_i_deterministic, o_deterministic, not_o_deterministic, epsilons, no_epsilons, i_epsilons,
  no_i_epsilons, o_epsilons, no_o_epsilons, i_label_sorted, not_i_label_sorted, o_label_sorted,
  not_o_label_sorted, weighted, unweighted, cyclic, acyclic, initial_cyclic, initial_acyclic,
  top_sorted, not_top_sorted, accessible, not_accessible, coaccessible, not_coaccessible, string,
  not_string, weighted_cycles, unweighted_cycles,
}
use rustfst.Props.Masks.{weight_invariant_properties}

pub data ProjectType : Type 0 where
  project_input project_output : ProjectType

unfoldable pub closure_properties : FstProperties → Bool → FstProperties
closure_properties inprops delayed =
    let p0 = mask (acceptor ∷ unweighted ∷ accessible ∷ []) ∩ inprops in
    let p1 = add_if (inprops unweighted) (mask (unweighted_cycles ∷ [])) p0 in
    let p2 =
      add_if (not delayed) (mask (coaccessible ∷ not_top_sorted ∷ not_string ∷ []) ∩ inprops) p1 in
    let p3 =
      add_if (not delayed || inprops accessible)
        (mask (
            not_acceptor ∷ not_i_deterministic ∷ not_o_deterministic ∷ not_i_label_sorted
            ∷ not_o_label_sorted ∷ weighted ∷ weighted_cycles ∷ not_accessible ∷ not_coaccessible
            ∷ [])
          ∩ inprops)
        p2 in
    let p4 =
      add_if
        ((not delayed || inprops accessible)
          && (inprops weighted && inprops accessible && inprops coaccessible))
        (mask (weighted_cycles ∷ [])) p3 in
    p4

unfoldable pub compose_properties : FstProperties → FstProperties → FstProperties
compose_properties inprops1 inprops2 =
    let p0 = empty in
    let p1 =
      add_if (inprops1 acceptor && inprops2 acceptor) (mask (acceptor ∷ accessible ∷ [])) p0 in
    let p2 =
      add_if (inprops1 acceptor && inprops2 acceptor)
        (mask (no_epsilons ∷ no_i_epsilons ∷ no_o_epsilons ∷ acyclic ∷ initial_acyclic ∷ [])
          ∩ inprops1
          ∩ inprops2)
        p1 in
    let p3 =
      add_if
        ((inprops1 acceptor && inprops2 acceptor)
          && (inprops1 no_i_epsilons && inprops2 no_i_epsilons))
        (mask (i_deterministic ∷ o_deterministic ∷ []) ∩ inprops1 ∩ inprops2) p2 in
    let p4 = add_if (not (inprops1 acceptor && inprops2 acceptor)) (mask (accessible ∷ [])) p3 in
    let p5 =
      add_if (not (inprops1 acceptor && inprops2 acceptor))
        (mask (acceptor ∷ no_i_epsilons ∷ acyclic ∷ initial_acyclic ∷ []) ∩ inprops1 ∩ inprops2)
        p4 in
    let p6 =
      add_if
        (not (inprops1 acceptor && inprops2 acceptor)
          && (inprops1 no_i_epsilons && inprops2 no_i_epsilons))
        (mask (i_deterministic ∷ []) ∩ inprops1 ∩ inprops2) p5 in
    p6

unfoldable pub concat_properties : FstProperties → FstProperties → Bool → FstProperties
concat_properties inprops1 inprops2 delayed =
    let empty1 = delayed in
    let empty2 = delayed in
    let p0 =
      mask (acceptor ∷ unweighted ∷ unweighted_cycles ∷ acyclic ∷ []) ∩ inprops1 ∩ inprops2 in
    let p1 = add_if (not delayed) (mask (not_top_sorted ∷ not_string ∷ []) ∩ inprops1) p0 in
    let p2 = add_if (not delayed) (mask (not_top_sorted ∷ not_string ∷ []) ∩ inprops2) p1 in
    let p3 = add_if (not empty1) (mask (initial_acyclic ∷ initial_cyclic ∷ []) ∩ inprops1) p2 in
    let p4 =
      add_if (not delayed || inprops1 accessible)
        (mask (
            not_acceptor ∷ not_i_deterministic ∷ not_o_deterministic ∷ epsilons ∷ i_epsilons
            ∷ o_epsilons ∷ not_i_label_sorted ∷ not_o_label_sorted ∷ weighted ∷ weighted_cycles
            ∷ cyclic ∷ not_accessible ∷ not_coaccessible ∷ [])
          ∩ inprops1)
        p3 in
    let p5 =
      add_if (((inprops1 accessible && inprops1 coaccessible)) && not empty1)
        (mask (accessible ∷ []) ∩ inprops2) p4 in
    let p6 =
      add_if ((((inprops1 accessible && inprops1 coaccessible)) && not empty1) && (not empty2))
        (mask (coaccessible ∷ []) ∩ inprops2) p5 in
    let p7 =
      add_if
        ((((inprops1 accessible && inprops1 coaccessible)) && not empty1)
          && (not delayed || inprops2 accessible))
        (mask (
            not_acceptor ∷ not_i_deterministic ∷ not_o_deterministic ∷ epsilons ∷ i_epsilons
            ∷ o_epsilons ∷ not_i_label_sorted ∷ not_o_label_sorted ∷ weighted ∷ weighted_cycles
            ∷ cyclic ∷ not_accessible ∷ not_coaccessible ∷ [])
          ∩ inprops2)
        p6 in
    p7

unfoldable pub determinize_properties : FstProperties → Bool → Bool → FstProperties
determinize_properties inprops has_subsequential_label distinct_psubsequential_labels =
    let p0 = mask (accessible ∷ []) in
    let p1 =
      add_if
        (inprops acceptor
          || (inprops no_i_epsilons && distinct_psubsequential_labels)
          || (has_subsequential_label && distinct_psubsequential_labels))
        (mask (i_deterministic ∷ [])) p0 in
    let p2 =
      p1 ∪ mask (acceptor ∷ acyclic ∷ initial_acyclic ∷ coaccessible ∷ string ∷ []) ∩ inprops in
    let p3 =
      add_if (inprops no_i_epsilons && distinct_psubsequential_labels)
        (mask (no_epsilons ∷ []) ∩ inprops) p2 in
    let p4 =
      add_if (inprops accessible) (mask (i_epsilons ∷ o_epsilons ∷ cyclic ∷ []) ∩ inprops) p3 in
    let p5 = add_if (inprops acceptor) (mask (no_i_epsilons ∷ no_o_epsilons ∷ []) ∩ inprops) p4 in
    let p6 =
      add_if (inprops no_i_epsilons && has_subsequential_label) (mask (no_i_epsilons ∷ [])) p5 in
    p6

unfoldable pub factor_weight_properties : FstProperties → FstProperties
factor_weight_properties inprops =
    let p0 = mask (acceptor ∷ acyclic ∷ accessible ∷ coaccessible ∷ []) ∩ inprops in
    let p1 =
      add_if (inprops accessible)
        (mask (
            not_acceptor ∷ not_i_deterministic ∷ not_o_deterministic ∷ epsilons ∷ i_epsilons
            ∷ o_epsilons ∷ cyclic ∷ not_i_label_sorted ∷ not_o_label_sorted ∷ [])
          ∩ inprops)
        p0 in
    p1

unfoldable pub invert_properties : FstProperties → FstProperties
invert_properties inprops =
    let p0 =
      mask (
        acceptor ∷ not_acceptor ∷ epsilons ∷ no_epsilons ∷ weighted ∷ unweighted ∷ weighted_cycles
        ∷ unweighted_cycles ∷ cyclic ∷ acyclic ∷ initial_cyclic ∷ initial_acyclic ∷ top_sorted
        ∷ not_top_sorted ∷ accessible ∷ not_accessible ∷ coaccessible ∷ not_coaccessible ∷ string
        ∷ not_string ∷ [])
      ∩ inprops in
    let p1 = add_if (inprops i_deterministic) (mask (o_deterministic ∷ [])) p0 in
    let p2 = add_if (inprops not_i_deterministic) (mask (not_o_deterministic ∷ [])) p1 in
    let p3 = add_if (inprops o_deterministic) (mask (i_deterministic ∷ [])) p2 in
    let p4 = add_if (inprops not_o_deterministic) (mask (not_i_deterministic ∷ [])) p3 in
    let p5 = add_if (inprops i_epsilons) (mask (o_epsilons ∷ [])) p4 in
    let p6 = add_if (inprops no_i_epsilons) (mask (no_o_epsilons ∷ [])) p5 in
    let p7 = add_if (inprops o_epsilons) (mask (i_epsilons ∷ [])) p6 in
    let p8 = add_if (inprops no_o_epsilons) (mask (no_i_epsilons ∷ [])) p7 in
    let p9 = add_if (inprops i_label_sorted) (mask (o_label_sorted ∷ [])) p8 in
    let p10 = add_if (inprops not_i_label_sorted) (mask (not_o_label_sorted ∷ [])) p9 in
    let p11 = add_if (inprops o_label_sorted) (mask (i_label_sorted ∷ [])) p10 in
    let p12 = add_if (inprops not_o_label_sorted) (mask (not_i_label_sorted ∷ [])) p11 in p12

unfoldable pub reverse_properties : FstProperties → Bool → FstProperties
reverse_properties inprops has_superinitial =
    let p0 =
      mask (
        acceptor ∷ not_acceptor ∷ epsilons ∷ i_epsilons ∷ o_epsilons ∷ unweighted ∷ cyclic ∷ acyclic
        ∷ weighted_cycles ∷ unweighted_cycles ∷ [])
      ∩ inprops in
    let p1 = add_if (has_superinitial) (mask (weighted ∷ []) ∩ inprops) p0 in p1

unfoldable pub rmepsilon_properties : FstProperties → Bool → FstProperties
rmepsilon_properties inprops delayed =
    let p0 = mask (no_epsilons ∷ []) in
    let p1 = p0 ∪ mask (acceptor ∷ acyclic ∷ initial_acyclic ∷ []) ∩ inprops in
    let p2 = add_if (inprops acceptor) (mask (no_i_epsilons ∷ no_o_epsilons ∷ [])) p1 in
    let p3 = add_if (not delayed) (mask (top_sorted ∷ []) ∩ inprops) p2 in
    let p4 = add_if (not delayed || inprops accessible) (mask (not_acceptor ∷ []) ∩ inprops) p3 in
    p4

unfoldable pub synchronization_properties : FstProperties → FstProperties
synchronization_properties inprops =
    let p0 =
      mask (acceptor ∷ acyclic ∷ accessible ∷ coaccessible ∷ unweighted ∷ unweighted_cycles ∷ [])
      ∩ inprops in
    let p1 =
      add_if (inprops accessible)
        (mask (cyclic ∷ not_coaccessible ∷ weighted ∷ weighted_cycles ∷ []) ∩ inprops) p0 in
    p1

unfoldable pub union_properties : FstProperties → FstProperties → Bool → FstProperties
union_properties inprops1 inprops2 delayed =
    let empty1 = delayed in
    let empty2 = delayed in
    let p0 =
      mask (acceptor ∷ unweighted ∷ unweighted_cycles ∷ acyclic ∷ accessible ∷ [])
      ∩ inprops1
      ∩ inprops2 in
    let p1 = p0 ∪ mask (initial_acyclic ∷ []) in
    let p2 = add_if (not delayed) (mask (not_top_sorted ∷ []) ∩ inprops1) p1 in
    let p3 = add_if (not delayed) (mask (not_top_sorted ∷ []) ∩ inprops2) p2 in
    let p4 =
      add_if (not empty1 && not empty2) (mask (epsilons ∷ i_epsilons ∷ o_epsilons ∷ [])) p3 in
    let p5 =
      add_if (not empty1 && not empty2) (mask (coaccessible ∷ []) ∩ inprops1 ∩ inprops2) p4 in
    let p6 =
      add_if (not delayed || inprops1 accessible)
        (mask (
            not_acceptor ∷ not_i_deterministic ∷ not_o_deterministic ∷ epsilons ∷ i_epsilons
            ∷ o_epsilons ∷ not_i_label_sorted ∷ not_o_label_sorted ∷ weighted ∷ weighted_cycles
            ∷ cyclic ∷ not_accessible ∷ [])
          ∩ inprops1)
        p5 in
    let p7 =
      add_if (not delayed || inprops2 accessible)
        (mask (
            not_acceptor ∷ not_i_deterministic ∷ not_o_deterministic ∷ epsilons ∷ i_epsilons
            ∷ o_epsilons ∷ not_i_label_sorted ∷ not_o_label_sorted ∷ weighted ∷ weighted_cycles
            ∷ cyclic ∷ not_accessible ∷ not_coaccessible ∷ [])
          ∩ inprops2)
        p6 in
    p7

unfoldable pub project_properties : FstProperties → ProjectType → FstProperties
project_properties inprops project_input =
    let p0 = mask (acceptor ∷ []) in
    let p1 =
      p0
      ∪ mask (
          weighted ∷ unweighted ∷ weighted_cycles ∷ unweighted_cycles ∷ cyclic ∷ acyclic
          ∷ initial_cyclic ∷ initial_acyclic ∷ top_sorted ∷ not_top_sorted ∷ accessible
          ∷ not_accessible ∷ coaccessible ∷ not_coaccessible ∷ string ∷ not_string ∷ [])
        ∩ inprops in
    let p2 =
      p1
      ∪ mask (
          i_deterministic ∷ not_i_deterministic ∷ i_epsilons ∷ no_i_epsilons ∷ i_label_sorted
          ∷ not_i_label_sorted ∷ [])
        ∩ inprops in
    let p3 = add_if (inprops i_deterministic) (mask (o_deterministic ∷ [])) p2 in
    let p4 = add_if (inprops not_i_deterministic) (mask (not_o_deterministic ∷ [])) p3 in
    let p5 = add_if (inprops i_epsilons) (mask (o_epsilons ∷ epsilons ∷ [])) p4 in
    let p6 = add_if (inprops no_i_epsilons) (mask (no_o_epsilons ∷ no_epsilons ∷ [])) p5 in
    let p7 = add_if (inprops i_label_sorted) (mask (o_label_sorted ∷ [])) p6 in
    let p8 = add_if (inprops not_i_label_sorted) (mask (not_o_label_sorted ∷ [])) p7 in p8
project_properties inprops project_output =
    let p0 = mask (acceptor ∷ []) in
    let p1 =
      p0
      ∪ mask (
          weighted ∷ unweighted ∷ weighted_cycles ∷ unweighted_cycles ∷ cyclic ∷ acyclic
          ∷ initial_cyclic ∷ initial_acyclic ∷ top_sorted ∷ not_top_sorted ∷ accessible
          ∷ not_accessible ∷ coaccessible ∷ not_coaccessible ∷ string ∷ not_string ∷ [])
        ∩ inprops in
    let p2 =
      p1
      ∪ mask (
          o_deterministic ∷ not_o_deterministic ∷ o_epsilons ∷ no_o_epsilons ∷ o_label_sorted
          ∷ not_o_label_sorted ∷ [])
        ∩ inprops in
    let p3 = add_if (inprops o_deterministic) (mask (i_deterministic ∷ [])) p2 in
    let p4 = add_if (inprops not_o_deterministic) (mask (not_i_deterministic ∷ [])) p3 in
    let p5 = add_if (inprops o_epsilons) (mask (i_epsilons ∷ epsilons ∷ [])) p4 in
    let p6 = add_if (inprops no_o_epsilons) (mask (no_i_epsilons ∷ no_epsilons ∷ [])) p5 in
    let p7 = add_if (inprops o_label_sorted) (mask (i_label_sorted ∷ [])) p6 in
    let p8 = add_if (inprops not_o_label_sorted) (mask (not_i_label_sorted ∷ [])) p7 in p8

unfoldable pub rand_gen_properties : FstProperties → Bool → FstProperties
rand_gen_properties inprops weights =
    let p0 = mask (acyclic ∷ initial_acyclic ∷ accessible ∷ unweighted_cycles ∷ []) in
    let p1 = add_if weights (mask (top_sorted ∷ [])) p0 in
    let p2 =
      add_if weights
        (mask (
            acceptor ∷ no_epsilons ∷ no_i_epsilons ∷ no_o_epsilons ∷ i_deterministic
            ∷ o_deterministic ∷ i_label_sorted ∷ o_label_sorted ∷ [])
          ∩ inprops)
        p1 in
    let p3 = add_if (not weights) (mask (unweighted ∷ [])) p2 in
    let p4 =
      add_if (not weights) (mask (acceptor ∷ i_label_sorted ∷ o_label_sorted ∷ []) ∩ inprops) p3 in
    p4

unfoldable pub relabel_properties : FstProperties → FstProperties
relabel_properties inprops =
    mask (
      weighted ∷ unweighted ∷ weighted_cycles ∷ unweighted_cycles ∷ cyclic ∷ acyclic
      ∷ initial_cyclic ∷ initial_acyclic ∷ top_sorted ∷ not_top_sorted ∷ accessible ∷ not_accessible
      ∷ coaccessible ∷ not_coaccessible ∷ string ∷ not_string ∷ [])
    ∩ inprops

unfoldable pub reweight_properties : FstProperties → FstProperties
reweight_properties inprops = (weight_invariant_properties ∩ inprops) ∖ mask (coaccessible ∷ [])

unfoldable pub shortest_path_properties : FstProperties → Bool → FstProperties
shortest_path_properties props tree =
    add_if (not tree) (mask (coaccessible ∷ []))
      (props ∪ mask (acyclic ∷ initial_acyclic ∷ accessible ∷ unweighted_cycles ∷ []))
