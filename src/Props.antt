-- ===== src/Props.antt =====
-- fst_properties/properties.rs: the flags of `FstProperties` and the operations of the bit set.
pub mod Masks
pub mod Known
pub mod Compat
pub mod Tests
pub mod Update
pub mod Transform
use rustfst.Base.{ℕ, ◌==◌, Bool, true, false, not, ◌&&◌, ◌||◌, List, [], ◌∷◌}

pub data Flag : Type 0 where
  acceptor not_acceptor : Flag
  i_deterministic not_i_deterministic : Flag
  o_deterministic not_o_deterministic : Flag
  epsilons no_epsilons : Flag
  i_epsilons no_i_epsilons : Flag
  o_epsilons no_o_epsilons : Flag
  i_label_sorted not_i_label_sorted : Flag
  o_label_sorted not_o_label_sorted : Flag
  weighted unweighted : Flag
  cyclic acyclic : Flag
  initial_cyclic initial_acyclic : Flag
  top_sorted not_top_sorted : Flag
  accessible not_accessible : Flag
  coaccessible not_coaccessible : Flag
  string not_string : Flag
  weighted_cycles unweighted_cycles : Flag

-- The position of a flag's bit.
abbrev pub bit : Flag → ℕ
bit acceptor = 16
bit not_acceptor = 17
bit i_deterministic = 18
bit not_i_deterministic = 19
bit o_deterministic = 20
bit not_o_deterministic = 21
bit epsilons = 22
bit no_epsilons = 23
bit i_epsilons = 24
bit no_i_epsilons = 25
bit o_epsilons = 26
bit no_o_epsilons = 27
bit i_label_sorted = 28
bit not_i_label_sorted = 29
bit o_label_sorted = 30
bit not_o_label_sorted = 31
bit weighted = 32
bit unweighted = 33
bit cyclic = 34
bit acyclic = 35
bit initial_cyclic = 36
bit initial_acyclic = 37
bit top_sorted = 38
bit not_top_sorted = 39
bit accessible = 40
bit not_accessible = 41
bit coaccessible = 42
bit not_coaccessible = 43
bit string = 44
bit not_string = 45
bit weighted_cycles = 46
bit unweighted_cycles = 47

-- A set of flags is its characteristic function.
abbrev pub FstProperties : Type 0
FstProperties = Flag → Bool

infixl 65 ◌∪◌ ◌∖◌
infixl 70 ◌∩◌
-- The operations flag by flag. A test is read only at the flags that it changes, so that an operation
-- with fixed flags computes at the others.
abbrev pub ◌∪◌ : FstProperties → FstProperties → FstProperties
◌∪◌ p q f = q f || p f

abbrev pub ◌∩◌ : FstProperties → FstProperties → FstProperties
◌∩◌ p q f = p f && q f

-- `p & !q`.
abbrev pub ◌∖◌ : FstProperties → FstProperties → FstProperties
◌∖◌ p q f = not (q f) && p f

abbrev pub empty : FstProperties
empty f = false

-- Every flag, in the order of the bits.
abbrev pub all_flags : List Flag
all_flags =
    acceptor ∷ not_acceptor ∷ i_deterministic ∷ not_i_deterministic ∷ o_deterministic
    ∷ not_o_deterministic ∷ epsilons ∷ no_epsilons ∷ i_epsilons ∷ no_i_epsilons ∷ o_epsilons
    ∷ no_o_epsilons ∷ i_label_sorted ∷ not_i_label_sorted ∷ o_label_sorted ∷ not_o_label_sorted
    ∷ weighted ∷ unweighted ∷ cyclic ∷ acyclic ∷ initial_cyclic ∷ initial_acyclic ∷ top_sorted
    ∷ not_top_sorted ∷ accessible ∷ not_accessible ∷ coaccessible ∷ not_coaccessible ∷ string
    ∷ not_string ∷ weighted_cycles ∷ unweighted_cycles ∷ []

-- Flags joined by `|`.
abbrev pub mask : List Flag → FstProperties
mask [] f = false
mask (g ∷ gs) f = bit g == bit f || mask gs f

-- `if test { p |= added }`.
abbrev pub add_if : Bool → FstProperties → FstProperties → FstProperties
add_if test added p f = added f && test || p f

-- `if test { p &= !removed }`.
abbrev pub remove_if : Bool → FstProperties → FstProperties → FstProperties
remove_if test removed p f = not (removed f && test) && p f

-- `if test { p |= added; p &= !removed }` for two flags, which are not one.
abbrev pub turn : Bool → Flag → Flag → FstProperties → FstProperties
turn test added removed p f =
    bit added == bit f && test || not (bit removed == bit f && test) && p f
