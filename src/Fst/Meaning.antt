-- ===== src/Fst/Meaning.antt =====
-- What the comment above each flag in fst_properties/properties.rs says of a machine, and walks.
use rustfst.Base.{ℕ, suc, ◌<◌, ◌≤◌, ◌≡◌, ◌≢◌, ◌⊎◌, true, false, none, some, arith}
use rustfst.Tr.{Tr, eps_label}
use rustfst.Weights.{Semiring, is_weighted}
use rustfst.Props.{
  Flag, acceptor, not_acceptor, i_deterministic, not_i_deterministic, o_deterministic,
  not_o_deterministic, epsilons, no_epsilons, i_epsilons, no_i_epsilons, o_epsilons, no_o_epsilons,
  i_label_sorted, not_i_label_sorted, o_label_sorted, not_o_label_sorted, weighted, unweighted,
  cyclic, acyclic, initial_cyclic, initial_acyclic, top_sorted, not_top_sorted, accessible,
  not_accessible, coaccessible, not_coaccessible, string, not_string, weighted_cycles,
  unweighted_cycles,
}
use rustfst.Fst.{VectorFst, num_states, final_of, TrAt}

-- A walk along transitions.
pub data Walk {W : Type 0} (f : VectorFst W) : ℕ → ℕ → Type 0 where
  here : {s : ℕ} → Walk f s s
  step : (i : ℕ) (tr : Tr W) {s t : ℕ} → TrAt f s i tr → Walk f tr.nextstate t → Walk f s t

module _ {W : Type 0} where
  abbrev pub IsOnCycle : VectorFst W → ℕ → Type 0
  IsOnCycle f s = (i : ℕ) × (tr : Tr W) × TrAt f s i tr × Walk f tr.nextstate s

  abbrev pub IsReached : VectorFst W → ℕ → Type 0
  IsReached f s = (r : ℕ) × (f.start_state ≡ some r) × Walk f r s

  abbrev pub ReachesFinal : VectorFst W → ℕ → Type 0
  ReachesFinal f s = (t : ℕ) × (w : W) × Walk f s t × (final_of f t ≡ some w)

  -- State 0 is initial, the last state alone is final, each other state has one transition to the next
  -- state, and there are no other transitions.
  pub record IsString (f : VectorFst W) : Type 0 where
    pub start : f.start_state ≡ some 0
    pub last_final : (s : ℕ) → suc s ≡ num_states f → final_of f s ≢ none
    pub others_not : (s : ℕ) → suc s < num_states f → final_of f s ≡ none
    pub only : (s i : ℕ) (tr : Tr W) → TrAt f s i tr → (i ≡ 0) × (tr.nextstate ≡ suc s)
    pub next : (s : ℕ) → suc s < num_states f → (tr : Tr W) × TrAt f s 0 tr

  -- A label that two transitions of one state share.
  abbrev pub Unique : (Tr W → ℕ) → VectorFst W → Type 0
  Unique label f =
      (s i j : ℕ) (a b : Tr W) → TrAt f s i a → TrAt f s j b → label a ≡ label b → i ≡ j

  abbrev pub Repeated : (Tr W → ℕ) → VectorFst W → Type 0
  Repeated label f =
      (s : ℕ) × (i : ℕ) × (j : ℕ) × (a : Tr W) × (b : Tr W) × TrAt f s i a
      × TrAt f s j b
      × (label a ≡ label b)
      × (i < j)

  abbrev pub Sorted : (Tr W → ℕ) → VectorFst W → Type 0
  Sorted label f = (s i : ℕ) (a b : Tr W) → TrAt f s i a → TrAt f s (suc i) b → label a ≤ label b

  abbrev pub Unsorted : (Tr W → ℕ) → VectorFst W → Type 0
  Unsorted label f =
      (s : ℕ) × (i : ℕ) × (a : Tr W) × (b : Tr W) × TrAt f s i a
      × TrAt f s (suc i) b
      × (label b < label a)

  -- Every transition meets `P`, some transition meets it.
  abbrev pub Every : (ℕ → Tr W → Type 0) → VectorFst W → Type 0
  Every P f = (s i : ℕ) (tr : Tr W) → TrAt f s i tr → P s tr

  abbrev pub Some : (ℕ → Tr W → Type 0) → VectorFst W → Type 0
  Some P f = (s : ℕ) × (i : ℕ) × (tr : Tr W) × TrAt f s i tr × P s tr

module _ {W : Type 0} ⦃sr : Semiring W⦄ where
  abbrev pub Holds : Flag → VectorFst W → Type 0
  Holds acceptor f = Every (λ _ tr. tr.ilabel ≡ tr.olabel) f
  Holds not_acceptor f = Some (λ _ tr. tr.ilabel ≢ tr.olabel) f
  Holds i_deterministic f = Unique (λ tr. tr.ilabel) f
  Holds not_i_deterministic f = Repeated (λ tr. tr.ilabel) f
  Holds o_deterministic f = Unique (λ tr. tr.olabel) f
  Holds not_o_deterministic f = Repeated (λ tr. tr.olabel) f
  Holds epsilons f = Some (λ _ tr. (tr.ilabel ≡ eps_label) × (tr.olabel ≡ eps_label)) f
  Holds no_epsilons f = Every (λ _ tr. ¬ ((tr.ilabel ≡ eps_label) × (tr.olabel ≡ eps_label))) f
  Holds i_epsilons f = Some (λ _ tr. tr.ilabel ≡ eps_label) f
  Holds no_i_epsilons f = Every (λ _ tr. tr.ilabel ≢ eps_label) f
  Holds o_epsilons f = Some (λ _ tr. tr.olabel ≡ eps_label) f
  Holds no_o_epsilons f = Every (λ _ tr. tr.olabel ≢ eps_label) f
  Holds i_label_sorted f = Sorted (λ tr. tr.ilabel) f
  Holds not_i_label_sorted f = Unsorted (λ tr. tr.ilabel) f
  Holds o_label_sorted f = Sorted (λ tr. tr.olabel) f
  Holds not_o_label_sorted f = Unsorted (λ tr. tr.olabel) f
  Holds weighted f =
      Some (λ _ tr. is_weighted tr.weight ≡ true) f
      ⊎ ((s : ℕ) × (w : W) × (final_of f s ≡ some w) × (is_weighted w ≡ true))
  Holds unweighted f =
      Every (λ _ tr. is_weighted tr.weight ≡ false) f
      × ((s : ℕ) (w : W) → final_of f s ≡ some w → is_weighted w ≡ false)
  Holds cyclic f = (s : ℕ) × IsOnCycle f s
  Holds acyclic f = (s : ℕ) → ¬ IsOnCycle f s
  Holds initial_cyclic f = (s : ℕ) × (f.start_state ≡ some s) × IsOnCycle f s
  Holds initial_acyclic f = (s : ℕ) → f.start_state ≡ some s → ¬ IsOnCycle f s
  Holds top_sorted f = Every (λ s tr. s < tr.nextstate) f
  Holds not_top_sorted f = Some (λ s tr. tr.nextstate ≤ s) f
  Holds accessible f = (s : ℕ) → s < num_states f → IsReached f s
  Holds not_accessible f = (s : ℕ) × (s < num_states f) × ¬ IsReached f s
  Holds coaccessible f = (s : ℕ) → s < num_states f → ReachesFinal f s
  Holds not_coaccessible f = (s : ℕ) × (s < num_states f) × ¬ ReachesFinal f s
  Holds string f = (num_states f ≡ 0) ⊎ IsString f
  Holds not_string f = ¬ ((num_states f ≡ 0) ⊎ IsString f)
  Holds weighted_cycles f =
      (s : ℕ) × (i : ℕ) × (tr : Tr W) × TrAt f s i tr
      × (is_weighted tr.weight ≡ true)
      × Walk f tr.nextstate s
  Holds unweighted_cycles f =
      (s i : ℕ) (tr : Tr W) → TrAt f s i tr → Walk f tr.nextstate s → is_weighted tr.weight ≡ false

  -- Every flag that the machine carries is true of it.
  abbrev pub IsSound : VectorFst W → Type 0
  IsSound f = (flag : Flag) → f.properties flag ≡ true → Holds flag f

  -- In a machine whose transitions all lead upwards no walk leads down, so there is no cycle.
  pub Walk-le : {f : VectorFst W} {s t : ℕ} → Holds top_sorted f → Walk f s t → s ≤ t
  Walk-le up here = omega arith
  Walk-le {s = s} up (step i tr e w) = omega (arith, up s i tr e, Walk-le up w)

  pub acyclic_of_top_sorted : {f : VectorFst W} → Holds top_sorted f → Holds acyclic f
  acyclic_of_top_sorted up s (i, tr, e, w) = omega (arith, up s i tr e, Walk-le up w)
