-- ===== src/Fst/Sound/Same.antt =====
-- Flags carried over between machines whose transitions are included in one another.
use rustfst.Base.{ℕ, ◌≡◌, Bool, true, false, ◌||◌, inl, inr, Bool-cases, arith}
use rustfst.Tr.{Tr}
use rustfst.Weights.{Semiring}
use rustfst.Props.{
  Flag, acceptor, not_acceptor, i_deterministic, not_i_deterministic, o_deterministic,
  not_o_deterministic, epsilons, no_epsilons, i_epsilons, no_i_epsilons, o_epsilons, no_o_epsilons,
  i_label_sorted, not_i_label_sorted, o_label_sorted, not_o_label_sorted, cyclic, acyclic,
  top_sorted, not_top_sorted, weighted_cycles, unweighted_cycles,
}
use rustfst.Fst.{VectorFst, trs_of, TrAt}
use rustfst.Fst.Meaning.{Walk, here, step, Holds, IsOnCycle}

-- Every transition of `g` stands at the same place in `f`.
abbrev pub Includes : {W : Type 0} → VectorFst W → VectorFst W → Type 0
Includes {W} f g = (x i : ℕ) (a : Tr W) → TrAt g x i a → TrAt f x i a

-- The flags that say what no transition and no cycle does, and those that say that some does.
abbrev pub universal : Flag → Bool
universal acceptor = true
universal i_deterministic = true
universal o_deterministic = true
universal no_epsilons = true
universal no_i_epsilons = true
universal no_o_epsilons = true
universal i_label_sorted = true
universal o_label_sorted = true
universal acyclic = true
universal top_sorted = true
universal unweighted_cycles = true
universal _ = false

abbrev pub existential : Flag → Bool
existential not_acceptor = true
existential not_i_deterministic = true
existential not_o_deterministic = true
existential epsilons = true
existential i_epsilons = true
existential o_epsilons = true
existential not_i_label_sorted = true
existential not_o_label_sorted = true
existential cyclic = true
existential not_top_sorted = true
existential weighted_cycles = true
existential _ = false

module _ {W : Type 0} ⦃sr : Semiring W⦄ (f g : VectorFst W) (sub : Includes f g) where
  pub Walk-sub : {x y : ℕ} → Walk g x y → Walk f x y
  Walk-sub here = here
  Walk-sub (step i a e w) = step i a (sub _ i a e) (Walk-sub w)

  pub cycle_sub : (x : ℕ) → IsOnCycle g x → IsOnCycle f x
  cycle_sub x (i, a, e, w) = (i, a, sub x i a e, Walk-sub w)

  pub universal_sub : (flag : Flag) → universal flag ≡ true → Holds flag f → Holds flag g
  universal_sub acceptor t h = λ x i a e. h x i a (sub x i a e)
  universal_sub i_deterministic t h = λ x i j a b p q. h x i j a b (sub x i a p) (sub x j b q)
  universal_sub o_deterministic t h = λ x i j a b p q. h x i j a b (sub x i a p) (sub x j b q)
  universal_sub no_epsilons t h = λ x i a e. h x i a (sub x i a e)
  universal_sub no_i_epsilons t h = λ x i a e. h x i a (sub x i a e)
  universal_sub no_o_epsilons t h = λ x i a e. h x i a (sub x i a e)
  universal_sub i_label_sorted t h = λ x i a b p q. h x i a b (sub x i a p) (sub x _ b q)
  universal_sub o_label_sorted t h = λ x i a b p q. h x i a b (sub x i a p) (sub x _ b q)
  universal_sub acyclic t h = λ x c. h x (cycle_sub x c)
  universal_sub top_sorted t h = λ x i a e. h x i a (sub x i a e)
  universal_sub unweighted_cycles t h = λ x i a e w. h x i a (sub x i a e) (Walk-sub w)
  universal_sub _ t h = absurd (ground arith)

  pub existential_sub : (flag : Flag) → existential flag ≡ true → Holds flag g → Holds flag f
  existential_sub not_acceptor t (x, i, a, e, p) = (x, i, a, sub x i a e, p)
  existential_sub not_i_deterministic t (x, i, j, a, b, p, q, e, lt) =
      (x, i, j, a, b, sub x i a p, sub x j b q, e, lt)
  existential_sub not_o_deterministic t (x, i, j, a, b, p, q, e, lt) =
      (x, i, j, a, b, sub x i a p, sub x j b q, e, lt)
  existential_sub epsilons t (x, i, a, e, p) = (x, i, a, sub x i a e, p)
  existential_sub i_epsilons t (x, i, a, e, p) = (x, i, a, sub x i a e, p)
  existential_sub o_epsilons t (x, i, a, e, p) = (x, i, a, sub x i a e, p)
  existential_sub not_i_label_sorted t (x, i, a, b, p, q, lt) =
      (x, i, a, b, sub x i a p, sub x _ b q, lt)
  existential_sub not_o_label_sorted t (x, i, a, b, p, q, lt) =
      (x, i, a, b, sub x i a p, sub x _ b q, lt)
  existential_sub cyclic t (x, c) = (x, cycle_sub x c)
  existential_sub not_top_sorted t (x, i, a, e, p) = (x, i, a, sub x i a e, p)
  existential_sub weighted_cycles t (x, i, a, e, p, w) = (x, i, a, sub x i a e, p, Walk-sub w)
  existential_sub _ t h = absurd (ground arith)

pub same_Includes :
    {W : Type 0} (f g : VectorFst W)
    → ((x : ℕ) → trs_of g x ≡ trs_of f x)
    → Includes f g × Includes g f
same_Includes f g same = (λ x i a h. rw (same x) at h, λ x i a h. rw (same x) h)

-- The flags that speak of transitions and cycles alone carry over between machines with the same
-- transitions.
pub Holds-same :
    {W : Type 0} ⦃sr : Semiring W⦄ (f g : VectorFst W)
    → Includes f g
    → Includes g f
    → (flag : Flag) → (universal flag || existential flag) ≡ true
    → Holds flag f
    → Holds flag g
Holds-same f g sub sup flag t h = elim (Bool-cases (universal flag)) [
  | inl u ↦ universal_sub f g sub flag u h
  | inr u ↦ existential_sub g f sup flag (rw u at t) h
]
