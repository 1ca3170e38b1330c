-- ===== src/Compose/Schedule.antt =====
-- The ways in which a composition can follow a path of each machine: at each step the first, the
-- second or both go on, and the filter has to allow it.
pub mod Sequence
pub mod Unique
pub mod Exists
use rustfst.Base.{ℕ, ◌==◌, ◌≡◌, ◌≢◌, if◌then◌else◌, Bool, true, false, List, [], ◌∷◌, ok}
use rustfst.Tr.{Tr, eps_label}
use rustfst.Weights.{Semiring}
use rustfst.Fst.{VectorFst, TrAt}
use rustfst.Compose.{ComposeFilter, no_label, decide, eps_loop_input, eps_loop_output}
use rustfst.Compose.Filters.{is_final}

pub data Move : Type 0 where
  first second both : Move

module _ {W : Type 0} ⦃sr : Semiring W⦄ where
  -- The transitions of a walk from a state to a final state.
  abbrev pub IsPath : VectorFst W → ℕ → List (Tr W) → Type 0
  IsPath f s [] = ◌≡◌ (is_final f s) (ok true)
  IsPath f s (tr ∷ trs) = ((i : ℕ) × TrAt f s i tr) × IsPath f tr.nextstate trs

  -- The filter allows the moves, from a state of the composition to the ends of both paths.
  abbrev pub Accepts :
      (cf : ComposeFilter W) → List Move → ℕ → ℕ → cf.Fs → List (Tr W) → List (Tr W) → Type 0
  Accepts cf [] s1 s2 fs [] [] = Unit
  Accepts cf [] s1 s2 fs [] (t2 ∷ p2) = ⊥
  Accepts cf [] s1 s2 fs (t1 ∷ p1) p2 = ⊥
  Accepts cf (first ∷ ms) s1 s2 fs [] p2 = ⊥
  Accepts cf (first ∷ ms) s1 s2 fs (t1 ∷ p1) p2 =
      (t1.olabel ≡ eps_label)
      × (fs' : cf.Fs) × (decide cf s1 s2 fs t1 (eps_loop_input s2) ≡ ok fs')
      × (cf.equals fs' cf.no_state ≡ false)
      × Accepts cf ms t1.nextstate s2 fs' p1 p2
  Accepts cf (second ∷ ms) s1 s2 fs p1 [] = ⊥
  Accepts cf (second ∷ ms) s1 s2 fs p1 (t2 ∷ p2) =
      (t2.ilabel ≡ eps_label)
      × (fs' : cf.Fs) × (decide cf s1 s2 fs (eps_loop_output s1) t2 ≡ ok fs')
      × (cf.equals fs' cf.no_state ≡ false)
      × Accepts cf ms s1 t2.nextstate fs' p1 p2
  Accepts cf (both ∷ ms) s1 s2 fs [] p2 = ⊥
  Accepts cf (both ∷ ms) s1 s2 fs (t1 ∷ p1) [] = ⊥
  Accepts cf (both ∷ ms) s1 s2 fs (t1 ∷ p1) (t2 ∷ p2) =
      (t1.olabel ≡ t2.ilabel)
      × (fs' : cf.Fs) × (decide cf s1 s2 fs t1 t2 ≡ ok fs')
      × (cf.equals fs' cf.no_state ≡ false)
      × Accepts cf ms t1.nextstate t2.nextstate fs' p1 p2

  -- The labels of a path without its epsilons, and that none is the reserved one.
  abbrev pub read : (Tr W → ℕ) → List (Tr W) → List ℕ
  read label [] = []
  read label (tr ∷ trs) =
      let rest = read label trs in if label tr == eps_label then rest else label tr ∷ rest

  abbrev pub IsLabelled : (Tr W → ℕ) → List (Tr W) → Type 0
  IsLabelled label [] = Unit
  IsLabelled label (tr ∷ trs) = (label tr ≢ no_label) × IsLabelled label trs
