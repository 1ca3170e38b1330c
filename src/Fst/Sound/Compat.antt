-- ===== src/Fst/Sound/Compat.antt =====
-- Properties of one machine from two sources.
use rustfst.Base.{ℕ, ◌≡◌, inl, inr, sym, ◌∙◌, true, Bool-cases, arith}
use rustfst.Tr.{Tr}
use rustfst.Weights.{Semiring}
use rustfst.Props.{
  Flag, FstProperties, acceptor, not_acceptor, i_deterministic, not_i_deterministic,
  o_deterministic, not_o_deterministic, epsilons, no_epsilons, i_epsilons, no_i_epsilons,
  o_epsilons, no_o_epsilons, i_label_sorted, not_i_label_sorted, o_label_sorted, not_o_label_sorted,
  weighted, unweighted, cyclic, acyclic, initial_cyclic, initial_acyclic, top_sorted,
  not_top_sorted, accessible, not_accessible, coaccessible, not_coaccessible, string, not_string,
  weighted_cycles, unweighted_cycles,
}
use rustfst.Props.Known.{known_properties, opposite, known_properties_lem}
use rustfst.Props.Compat.{compat_properties, compat_properties_lem}
use rustfst.Fst.{VectorFst}
use rustfst.Fst.Meaning.{Holds, Every, Some, Unique, Repeated, Sorted, Unsorted}

module _ {W : Type 0} (f : VectorFst W) where
  never_both : (P : ℕ → Tr W → Type 0) → Some P f → Every (λ x a. ¬ P x a) f → ⊥
  never_both P (x, i, a, e, p) all = all x i a e p

  never-Repeated : (label : Tr W → ℕ) → Repeated label f → Unique label f → ⊥
  never-Repeated label (x, i, j, a, b, p, q, e, lt) all = omega (arith, all x i j a b p q e)

  never-Unsorted : (label : Tr W → ℕ) → Unsorted label f → Sorted label f → ⊥
  never-Unsorted label (x, i, a, b, p, q, lt) all = omega (arith, all x i a b p q)

module _ {W : Type 0} ⦃sr : Semiring W⦄ (f : VectorFst W) where
  never_weighted : Holds weighted f → Holds unweighted f → ⊥
  never_weighted (inl (x, i, a, e, p)) (on_trs, on_finals) = ground (arith, on_trs x i a e)
  never_weighted (inr (x, w, e, p)) (on_trs, on_finals) = ground (arith, on_finals x w e)

  -- No machine has both properties of a pair.
  Holds-opposite : (flag : Flag) → Holds flag f → Holds (opposite flag) f → ⊥
  Holds-opposite acceptor all (x, i, a, e, p) = p (all x i a e)
  Holds-opposite not_acceptor (x, i, a, e, p) all = p (all x i a e)
  Holds-opposite i_deterministic all some_two = never-Repeated f (λ a. a.ilabel) some_two all
  Holds-opposite not_i_deterministic some_two all = never-Repeated f (λ a. a.ilabel) some_two all
  Holds-opposite o_deterministic all some_two = never-Repeated f (λ a. a.olabel) some_two all
  Holds-opposite not_o_deterministic some_two all = never-Repeated f (λ a. a.olabel) some_two all
  Holds-opposite epsilons (x, i, a, e, p) all = all x i a e p
  Holds-opposite no_epsilons all (x, i, a, e, p) = all x i a e p
  Holds-opposite i_epsilons (x, i, a, e, p) all = all x i a e p
  Holds-opposite no_i_epsilons all (x, i, a, e, p) = all x i a e p
  Holds-opposite o_epsilons (x, i, a, e, p) all = all x i a e p
  Holds-opposite no_o_epsilons all (x, i, a, e, p) = all x i a e p
  Holds-opposite i_label_sorted all one = never-Unsorted f (λ a. a.ilabel) one all
  Holds-opposite not_i_label_sorted one all = never-Unsorted f (λ a. a.ilabel) one all
  Holds-opposite o_label_sorted all one = never-Unsorted f (λ a. a.olabel) one all
  Holds-opposite not_o_label_sorted one all = never-Unsorted f (λ a. a.olabel) one all
  Holds-opposite weighted one all = never_weighted one all
  Holds-opposite unweighted all one = never_weighted one all
  Holds-opposite cyclic (x, c) all = all x c
  Holds-opposite acyclic all (x, c) = all x c
  Holds-opposite initial_cyclic (x, e, c) all = all x e c
  Holds-opposite initial_acyclic all (x, e, c) = all x e c
  Holds-opposite top_sorted all (x, i, a, e, p) = omega (arith, all x i a e)
  Holds-opposite not_top_sorted (x, i, a, e, p) all = omega (arith, all x i a e)
  Holds-opposite accessible all (x, lt, never) = never (all x lt)
  Holds-opposite not_accessible (x, lt, never) all = never (all x lt)
  Holds-opposite coaccessible all (x, lt, never) = never (all x lt)
  Holds-opposite not_coaccessible (x, lt, never) all = never (all x lt)
  Holds-opposite string s never = never s
  Holds-opposite not_string never s = never s
  Holds-opposite weighted_cycles (x, i, a, e, p, w) all = ground (arith, all x i a e w)
  Holds-opposite unweighted_cycles all (x, i, a, e, p, w) = ground (arith, all x i a e w)

  -- Two sets of flags that are true of one machine are compatible.
  pub compat_of_sound :
      (p q : FstProperties)
      → ((flag : Flag) → p flag ≡ true → Holds flag f)
      → ((flag : Flag) → q flag ≡ true → Holds flag f)
      → compat_properties p q ≡ true
  compat_of_sound p q sound_p sound_q = (compat_properties_lem p q).1 (λ flag k l. agree flag k l)
    where
      agree :
          (flag : Flag)
          → known_properties p flag ≡ true
          → known_properties q flag ≡ true
          → p flag ≡ q flag
      agree flag k l = elim (Bool-cases (p flag)) [
        | inl yes_p ↦ elim (Bool-cases (q flag)) [
          | inl yes_q ↦ yes_p ∙ sym yes_q
          | inr no_q ↦ absurd (
              Holds-opposite flag (sound_p flag yes_p)
                (sound_q (opposite flag) (ground (arith, known_properties_lem q flag))))
        ]
        | inr no_p ↦ elim (Bool-cases (q flag)) [
          | inl yes_q ↦ absurd (
              Holds-opposite flag (sound_q flag yes_q)
                (sound_p (opposite flag) (ground (arith, known_properties_lem p flag))))
          | inr no_q ↦ no_p ∙ sym no_q
        ]
      ]
