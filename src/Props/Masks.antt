-- ===== src/Props/Masks.antt =====
-- fst_properties/properties.rs: the flags that hold of the empty machine, and those that each kind of
-- change preserves.
use rustfst.Base.{[], ◌∷◌, true}
use rustfst.Props.{
  FstProperties, mask, empty, acceptor, not_acceptor, i_deterministic, not_i_deterministic,
  o_deterministic, not_o_deterministic, epsilons, no_epsilons, i_epsilons, no_i_epsilons,
  o_epsilons, no_o_epsilons, i_label_sorted, not_i_label_sorted, o_label_sorted, not_o_label_sorted,
  weighted, unweighted, cyclic, acyclic, initial_cyclic, initial_acyclic, top_sorted,
  not_top_sorted, accessible, not_accessible, coaccessible, not_coaccessible, string, not_string,
  weighted_cycles, unweighted_cycles,
}

abbrev pub null_properties : FstProperties
null_properties = mask (
    acceptor ∷ i_deterministic ∷ o_deterministic ∷ no_epsilons ∷ no_i_epsilons ∷ no_o_epsilons
    ∷ i_label_sorted ∷ o_label_sorted ∷ unweighted ∷ acyclic ∷ initial_acyclic ∷ top_sorted
    ∷ accessible ∷ coaccessible ∷ string ∷ unweighted_cycles ∷ [])

abbrev pub copy_properties : FstProperties
copy_properties = mask (
    acceptor ∷ not_acceptor ∷ i_deterministic ∷ not_i_deterministic ∷ o_deterministic
    ∷ not_o_deterministic ∷ epsilons ∷ no_epsilons ∷ i_epsilons ∷ no_i_epsilons ∷ o_epsilons
    ∷ no_o_epsilons ∷ i_label_sorted ∷ not_i_label_sorted ∷ o_label_sorted ∷ not_o_label_sorted
    ∷ weighted ∷ unweighted ∷ cyclic ∷ acyclic ∷ initial_cyclic ∷ initial_acyclic ∷ top_sorted
    ∷ not_top_sorted ∷ accessible ∷ not_accessible ∷ coaccessible ∷ not_coaccessible ∷ string
    ∷ not_string ∷ weighted_cycles ∷ unweighted_cycles ∷ [])

abbrev pub set_start_properties : FstProperties
set_start_properties = mask (
    acceptor ∷ not_acceptor ∷ i_deterministic ∷ not_i_deterministic ∷ o_deterministic
    ∷ not_o_deterministic ∷ epsilons ∷ no_epsilons ∷ i_epsilons ∷ no_i_epsilons ∷ o_epsilons
    ∷ no_o_epsilons ∷ i_label_sorted ∷ not_i_label_sorted ∷ o_label_sorted ∷ not_o_label_sorted
    ∷ weighted ∷ unweighted ∷ cyclic ∷ acyclic ∷ top_sorted ∷ not_top_sorted ∷ coaccessible
    ∷ not_coaccessible ∷ weighted_cycles ∷ unweighted_cycles ∷ [])

abbrev pub set_final_properties : FstProperties
set_final_properties = mask (
    acceptor ∷ not_acceptor ∷ i_deterministic ∷ not_i_deterministic ∷ o_deterministic
    ∷ not_o_deterministic ∷ epsilons ∷ no_epsilons ∷ i_epsilons ∷ no_i_epsilons ∷ o_epsilons
    ∷ no_o_epsilons ∷ i_label_sorted ∷ not_i_label_sorted ∷ o_label_sorted ∷ not_o_label_sorted
    ∷ cyclic ∷ acyclic ∷ initial_cyclic ∷ initial_acyclic ∷ top_sorted ∷ not_top_sorted ∷ accessible
    ∷ not_accessible ∷ weighted_cycles ∷ unweighted_cycles ∷ [])

abbrev pub add_state_properties : FstProperties
add_state_properties = mask (
    acceptor ∷ not_acceptor ∷ i_deterministic ∷ not_i_deterministic ∷ o_deterministic
    ∷ not_o_deterministic ∷ epsilons ∷ no_epsilons ∷ i_epsilons ∷ no_i_epsilons ∷ o_epsilons
    ∷ no_o_epsilons ∷ i_label_sorted ∷ not_i_label_sorted ∷ o_label_sorted ∷ not_o_label_sorted
    ∷ weighted ∷ unweighted ∷ cyclic ∷ acyclic ∷ initial_cyclic ∷ initial_acyclic ∷ top_sorted
    ∷ not_top_sorted ∷ not_accessible ∷ not_coaccessible ∷ not_string ∷ weighted_cycles
    ∷ unweighted_cycles ∷ [])

abbrev pub add_arc_properties : FstProperties
add_arc_properties = mask (
    not_acceptor ∷ not_i_deterministic ∷ not_o_deterministic ∷ epsilons ∷ i_epsilons ∷ o_epsilons
    ∷ not_i_label_sorted ∷ not_o_label_sorted ∷ weighted ∷ cyclic ∷ initial_cyclic ∷ not_top_sorted
    ∷ accessible ∷ coaccessible ∷ weighted_cycles ∷ [])

abbrev pub set_arc_properties : FstProperties
set_arc_properties = empty

abbrev pub delete_states_properties : FstProperties
delete_states_properties = mask (
    acceptor ∷ i_deterministic ∷ o_deterministic ∷ no_epsilons ∷ no_i_epsilons ∷ no_o_epsilons
    ∷ i_label_sorted ∷ o_label_sorted ∷ unweighted ∷ acyclic ∷ initial_acyclic ∷ top_sorted
    ∷ unweighted_cycles ∷ [])

abbrev pub delete_arcs_properties : FstProperties
delete_arcs_properties = mask (
    acceptor ∷ i_deterministic ∷ o_deterministic ∷ no_epsilons ∷ no_i_epsilons ∷ no_o_epsilons
    ∷ i_label_sorted ∷ o_label_sorted ∷ unweighted ∷ acyclic ∷ initial_acyclic ∷ top_sorted
    ∷ not_accessible ∷ not_coaccessible ∷ unweighted_cycles ∷ [])

abbrev pub statesort_properties : FstProperties
statesort_properties = mask (
    acceptor ∷ not_acceptor ∷ i_deterministic ∷ not_i_deterministic ∷ o_deterministic
    ∷ not_o_deterministic ∷ epsilons ∷ no_epsilons ∷ i_epsilons ∷ no_i_epsilons ∷ o_epsilons
    ∷ no_o_epsilons ∷ i_label_sorted ∷ not_i_label_sorted ∷ o_label_sorted ∷ not_o_label_sorted
    ∷ weighted ∷ unweighted ∷ cyclic ∷ acyclic ∷ initial_cyclic ∷ initial_acyclic ∷ accessible
    ∷ not_accessible ∷ coaccessible ∷ not_coaccessible ∷ weighted_cycles ∷ unweighted_cycles ∷ [])

abbrev pub arcsort_properties : FstProperties
arcsort_properties = mask (
    acceptor ∷ not_acceptor ∷ i_deterministic ∷ not_i_deterministic ∷ o_deterministic
    ∷ not_o_deterministic ∷ epsilons ∷ no_epsilons ∷ i_epsilons ∷ no_i_epsilons ∷ o_epsilons
    ∷ no_o_epsilons ∷ weighted ∷ unweighted ∷ cyclic ∷ acyclic ∷ initial_cyclic ∷ initial_acyclic
    ∷ top_sorted ∷ not_top_sorted ∷ accessible ∷ not_accessible ∷ coaccessible ∷ not_coaccessible
    ∷ string ∷ not_string ∷ weighted_cycles ∷ unweighted_cycles ∷ [])

abbrev pub i_label_invariant_properties : FstProperties
i_label_invariant_properties = mask (
    o_deterministic ∷ not_o_deterministic ∷ o_epsilons ∷ no_o_epsilons ∷ o_label_sorted
    ∷ not_o_label_sorted ∷ weighted ∷ unweighted ∷ cyclic ∷ acyclic ∷ initial_cyclic
    ∷ initial_acyclic ∷ top_sorted ∷ not_top_sorted ∷ accessible ∷ not_accessible ∷ coaccessible
    ∷ not_coaccessible ∷ string ∷ not_string ∷ weighted_cycles ∷ unweighted_cycles ∷ [])

abbrev pub o_label_invariant_properties : FstProperties
o_label_invariant_properties = mask (
    i_deterministic ∷ not_i_deterministic ∷ i_epsilons ∷ no_i_epsilons ∷ i_label_sorted
    ∷ not_i_label_sorted ∷ weighted ∷ unweighted ∷ cyclic ∷ acyclic ∷ initial_cyclic
    ∷ initial_acyclic ∷ top_sorted ∷ not_top_sorted ∷ accessible ∷ not_accessible ∷ coaccessible
    ∷ not_coaccessible ∷ string ∷ not_string ∷ weighted_cycles ∷ unweighted_cycles ∷ [])

abbrev pub weight_invariant_properties : FstProperties
weight_invariant_properties = mask (
    acceptor ∷ not_acceptor ∷ i_deterministic ∷ not_i_deterministic ∷ o_deterministic
    ∷ not_o_deterministic ∷ epsilons ∷ no_epsilons ∷ i_epsilons ∷ no_i_epsilons ∷ o_epsilons
    ∷ no_o_epsilons ∷ i_label_sorted ∷ not_i_label_sorted ∷ o_label_sorted ∷ not_o_label_sorted
    ∷ cyclic ∷ acyclic ∷ initial_cyclic ∷ initial_acyclic ∷ top_sorted ∷ not_top_sorted ∷ accessible
    ∷ not_accessible ∷ coaccessible ∷ not_coaccessible ∷ string ∷ not_string ∷ [])

abbrev pub add_super_final_properties : FstProperties
add_super_final_properties = mask (
    not_acceptor ∷ not_i_deterministic ∷ not_o_deterministic ∷ epsilons ∷ i_epsilons ∷ o_epsilons
    ∷ not_i_label_sorted ∷ not_o_label_sorted ∷ weighted ∷ unweighted ∷ cyclic ∷ acyclic
    ∷ initial_cyclic ∷ initial_acyclic ∷ not_top_sorted ∷ not_accessible ∷ coaccessible
    ∷ not_coaccessible ∷ not_string ∷ weighted_cycles ∷ unweighted_cycles ∷ [])

abbrev pub rm_super_final_properties : FstProperties
rm_super_final_properties = mask (
    acceptor ∷ not_acceptor ∷ i_deterministic ∷ o_deterministic ∷ no_epsilons ∷ no_i_epsilons
    ∷ no_o_epsilons ∷ i_label_sorted ∷ o_label_sorted ∷ weighted ∷ unweighted ∷ cyclic ∷ acyclic
    ∷ initial_cyclic ∷ initial_acyclic ∷ top_sorted ∷ accessible ∷ coaccessible ∷ not_coaccessible
    ∷ string ∷ weighted_cycles ∷ unweighted_cycles ∷ [])

-- No flag has a bit below 16, and `from_bits_truncate` drops the others.
abbrev pub binary_properties : FstProperties
binary_properties = empty

-- The bits 16 to 47, which are the flags.
abbrev pub trinary_properties : FstProperties
trinary_properties f = true

abbrev pub all_properties : FstProperties
all_properties f = true
