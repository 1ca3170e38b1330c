-- ===== src/Props/Known.antt =====
-- fst_properties/utils.rs: which properties a set of flags determines.
use rustfst.Base.{◌≡◌, Bool, true, false, not, ◌&&◌, ◌||◌, Option, none, some, [], ◌∷◌, arith}
use rustfst.Props.{
  Flag, FstProperties, ◌∪◌, ◌∩◌, mask, acceptor, not_acceptor, i_deterministic, not_i_deterministic,
  o_deterministic, not_o_deterministic, epsilons, no_epsilons, i_epsilons, no_i_epsilons,
  o_epsilons, no_o_epsilons, i_label_sorted, not_i_label_sorted, o_label_sorted, not_o_label_sorted,
  weighted, unweighted, cyclic, acyclic, initial_cyclic, initial_acyclic, top_sorted,
  not_top_sorted, accessible, not_accessible, coaccessible, not_coaccessible, string, not_string,
  weighted_cycles, unweighted_cycles,
}
use rustfst.Props.Masks.{binary_properties, trinary_properties}

-- The flag one bit below, and one bit above: what `<< 1` and `>> 1` move.
abbrev below : Flag → Option Flag
below acceptor = none
below not_acceptor = some acceptor
below i_deterministic = some not_acceptor
below not_i_deterministic = some i_deterministic
below o_deterministic = some not_i_deterministic
below not_o_deterministic = some o_deterministic
below epsilons = some not_o_deterministic
below no_epsilons = some epsilons
below i_epsilons = some no_epsilons
below no_i_epsilons = some i_epsilons
below o_epsilons = some no_i_epsilons
below no_o_epsilons = some o_epsilons
below i_label_sorted = some no_o_epsilons
below not_i_label_sorted = some i_label_sorted
below o_label_sorted = some not_i_label_sorted
below not_o_label_sorted = some o_label_sorted
below weighted = some not_o_label_sorted
below unweighted = some weighted
below cyclic = some unweighted
below acyclic = some cyclic
below initial_cyclic = some acyclic
below initial_acyclic = some initial_cyclic
below top_sorted = some initial_acyclic
below not_top_sorted = some top_sorted
below accessible = some not_top_sorted
below not_accessible = some accessible
below coaccessible = some not_accessible
below not_coaccessible = some coaccessible
below string = some not_coaccessible
below not_string = some string
below weighted_cycles = some not_string
below unweighted_cycles = some weighted_cycles

abbrev above : Flag → Option Flag
above acceptor = some not_acceptor
above not_acceptor = some i_deterministic
above i_deterministic = some not_i_deterministic
above not_i_deterministic = some o_deterministic
above o_deterministic = some not_o_deterministic
above not_o_deterministic = some epsilons
above epsilons = some no_epsilons
above no_epsilons = some i_epsilons
above i_epsilons = some no_i_epsilons
above no_i_epsilons = some o_epsilons
above o_epsilons = some no_o_epsilons
above no_o_epsilons = some i_label_sorted
above i_label_sorted = some not_i_label_sorted
above not_i_label_sorted = some o_label_sorted
above o_label_sorted = some not_o_label_sorted
above not_o_label_sorted = some weighted
above weighted = some unweighted
above unweighted = some cyclic
above cyclic = some acyclic
above acyclic = some initial_cyclic
above initial_cyclic = some initial_acyclic
above initial_acyclic = some top_sorted
above top_sorted = some not_top_sorted
above not_top_sorted = some accessible
above accessible = some not_accessible
above not_accessible = some coaccessible
above coaccessible = some not_coaccessible
above not_coaccessible = some string
above string = some not_string
above not_string = some weighted_cycles
above weighted_cycles = some unweighted_cycles
above unweighted_cycles = none

abbrev member : Option Flag → FstProperties → Bool
member none p = false
member (some f) p = p f

abbrev shl : FstProperties → FstProperties
shl p f = member (below f) p

abbrev shr : FstProperties → FstProperties
shr p f = member (above f) p

-- The bits of 0x5555… and of 0xaaaa….
abbrev pos_trinary_properties : FstProperties
pos_trinary_properties = mask (
    acceptor ∷ i_deterministic ∷ o_deterministic ∷ epsilons ∷ i_epsilons ∷ o_epsilons
    ∷ i_label_sorted ∷ o_label_sorted ∷ weighted ∷ cyclic ∷ initial_cyclic ∷ top_sorted ∷ accessible
    ∷ coaccessible ∷ string ∷ weighted_cycles ∷ [])

abbrev neg_trinary_properties : FstProperties
neg_trinary_properties = mask (
    not_acceptor ∷ not_i_deterministic ∷ not_o_deterministic ∷ no_epsilons ∷ no_i_epsilons
    ∷ no_o_epsilons ∷ not_i_label_sorted ∷ not_o_label_sorted ∷ unweighted ∷ acyclic
    ∷ initial_acyclic ∷ not_top_sorted ∷ not_accessible ∷ not_coaccessible ∷ not_string
    ∷ unweighted_cycles ∷ [])

unfoldable pub known_properties : FstProperties → FstProperties
known_properties props =
    binary_properties
    ∪ trinary_properties ∩ props
    ∪ shl (pos_trinary_properties ∩ props)
    ∪ shr (neg_trinary_properties ∩ props)

abbrev pub xor : Bool → Bool → Bool
xor true b = not b
xor false b = b

-- The flags left in the exclusive or of what both sets know.
unfoldable pub incompat_properties : FstProperties → FstProperties → FstProperties
unfolding known_properties
incompat_properties p q f =
    let known = known_properties p f && known_properties q f in xor (p f && known) (q f && known)

-- The other flag of a pair.
abbrev pub opposite : Flag → Flag
opposite acceptor = not_acceptor
opposite not_acceptor = acceptor
opposite i_deterministic = not_i_deterministic
opposite not_i_deterministic = i_deterministic
opposite o_deterministic = not_o_deterministic
opposite not_o_deterministic = o_deterministic
opposite epsilons = no_epsilons
opposite no_epsilons = epsilons
opposite i_epsilons = no_i_epsilons
opposite no_i_epsilons = i_epsilons
opposite o_epsilons = no_o_epsilons
opposite no_o_epsilons = o_epsilons
opposite i_label_sorted = not_i_label_sorted
opposite not_i_label_sorted = i_label_sorted
opposite o_label_sorted = not_o_label_sorted
opposite not_o_label_sorted = o_label_sorted
opposite weighted = unweighted
opposite unweighted = weighted
opposite cyclic = acyclic
opposite acyclic = cyclic
opposite initial_cyclic = initial_acyclic
opposite initial_acyclic = initial_cyclic
opposite top_sorted = not_top_sorted
opposite not_top_sorted = top_sorted
opposite accessible = not_accessible
opposite not_accessible = accessible
opposite coaccessible = not_coaccessible
opposite not_coaccessible = coaccessible
opposite string = not_string
opposite not_string = string
opposite weighted_cycles = unweighted_cycles
opposite unweighted_cycles = weighted_cycles

-- Both flags of a pair are known if and only if one of them is set.
pub known_properties_lem :
    (p : FstProperties) (f : Flag) → known_properties p f ≡ p f || p (opposite f)
unfolding known_properties
known_properties_lem p acceptor = ground arith
known_properties_lem p not_acceptor = ground arith
known_properties_lem p i_deterministic = ground arith
known_properties_lem p not_i_deterministic = ground arith
known_properties_lem p o_deterministic = ground arith
known_properties_lem p not_o_deterministic = ground arith
known_properties_lem p epsilons = ground arith
known_properties_lem p no_epsilons = ground arith
known_properties_lem p i_epsilons = ground arith
known_properties_lem p no_i_epsilons = ground arith
known_properties_lem p o_epsilons = ground arith
known_properties_lem p no_o_epsilons = ground arith
known_properties_lem p i_label_sorted = ground arith
known_properties_lem p not_i_label_sorted = ground arith
known_properties_lem p o_label_sorted = ground arith
known_properties_lem p not_o_label_sorted = ground arith
known_properties_lem p weighted = ground arith
known_properties_lem p unweighted = ground arith
known_properties_lem p cyclic = ground arith
known_properties_lem p acyclic = ground arith
known_properties_lem p initial_cyclic = ground arith
known_properties_lem p initial_acyclic = ground arith
known_properties_lem p top_sorted = ground arith
known_properties_lem p not_top_sorted = ground arith
known_properties_lem p accessible = ground arith
known_properties_lem p not_accessible = ground arith
known_properties_lem p coaccessible = ground arith
known_properties_lem p not_coaccessible = ground arith
known_properties_lem p string = ground arith
known_properties_lem p not_string = ground arith
known_properties_lem p weighted_cycles = ground arith
known_properties_lem p unweighted_cycles = ground arith
