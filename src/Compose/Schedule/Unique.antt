-- ===== src/Compose/Schedule/Unique.antt =====
-- compose_filters/sequence_compose_filter.rs: it allows exactly one way to follow two paths at once.
use rustfst.Base.{ℕ, ◌==◌, ◌≡◌, ◌≢◌, refl, ap, subst, ◌∙◌, false, List, [], ◌∷◌, ok, arith}
use rustfst.Tr.{Tr, eps_label}
use rustfst.Weights.{Semiring}
use rustfst.Fst.{VectorFst}
use rustfst.Fst.Valid.{IsValid}
use rustfst.Compose.{no_state_id, decide, eps_loop_output}
use rustfst.Compose.Filters.{sequence_filter}
use rustfst.Compose.Schedule.{Move, first, second, both, IsPath, Accepts}
use rustfst.Compose.Schedule.Sequence.{decided, second_notices, dead, not_both_eps}

module _ {W : Type 0} ⦃sr : Semiring W⦄ (f : VectorFst W) (v : IsValid f) where
  open_state : (fs : ℕ) → (fs == no_state_id) ≡ false → fs ≢ no_state_id
  open_state fs h = λ e. ground arith

  -- No way begins with the second machine where the first has to follow an epsilon.
  clash :
      (ms : List Move) (s1 s2 fs fs' : ℕ) (t1 t2 : Tr W) (p1 p2 : List (Tr W))
      → fs ≢ no_state_id
      → IsPath f s1 (t1 ∷ p1)
      → t1.olabel ≡ eps_label
      → decide (sequence_filter f) s1 s2 fs (eps_loop_output s1) t2 ≡ ok fs'
      → (fs' == no_state_id) ≡ false
      → Accepts (sequence_filter f) ms s1 t2.nextstate fs' (t1 ∷ p1) p2
      → ⊥
  clash ms s1 s2 fs fs' t1 t2 p1 p2 n path eps d o a =
      let one = second_notices f v s1 s2 fs fs' t1 t2 p1 n path eps d o in
      dead f v ms s1 t2.nextstate t1 p1 p2 path eps
        (subst (λ (z : ℕ). Accepts (sequence_filter f) ms s1 t2.nextstate z (t1 ∷ p1) p2) one a)

  -- Two accepted ways are the same.
  pub unique :
      (ms ms' : List Move) (s1 s2 fs : ℕ) (p1 p2 : List (Tr W))
      → fs ≢ no_state_id
      → IsPath f s1 p1
      → Accepts (sequence_filter f) ms s1 s2 fs p1 p2
      → Accepts (sequence_filter f) ms' s1 s2 fs p1 p2
      → ms ≡ ms'
  unique [] [] s1 s2 fs p1 p2 n path a b = refl
  unique [] (first ∷ ms') s1 s2 fs [] p2 n path a b = absurd b
  unique [] (second ∷ ms') s1 s2 fs [] [] n path a b = absurd b
  unique [] (both ∷ ms') s1 s2 fs [] p2 n path a b = absurd b
  unique [] ms' s1 s2 fs [] (t2 ∷ p2) n path a b = absurd a
  unique [] ms' s1 s2 fs (t1 ∷ p1) p2 n path a b = absurd a
  unique (first ∷ ms) ms' s1 s2 fs [] p2 n path a b = absurd a
  unique (first ∷ ms) [] s1 s2 fs (t1 ∷ p1) p2 n path a b = absurd b
  unique (first ∷ ms) (first ∷ ms') s1 s2 fs (t1 ∷ p1) p2 n path (eps, x, d, o, a)
        (_, y, d', _, b) =
      let same : y ≡ x = decided f _ d' d in
      ap (λ l. first ∷ l)
        (unique ms ms' t1.nextstate s2 x p1 p2 (open_state x o) path.1 a
          (subst (λ (z : ℕ). Accepts (sequence_filter f) ms' t1.nextstate s2 z p1 p2) same b))
  unique (first ∷ ms) (second ∷ ms') s1 s2 fs (t1 ∷ p1) [] n path a b = absurd b
  unique (first ∷ ms) (second ∷ ms') s1 s2 fs (t1 ∷ p1) (t2 ∷ p2) n path (eps, _, _, _, _)
        (_, y, d', o, b) =
      absurd (clash ms' s1 s2 fs y t1 t2 p1 p2 n path eps d' o b)
  unique (first ∷ ms) (both ∷ ms') s1 s2 fs (t1 ∷ p1) [] n path a b = absurd b
  unique (first ∷ ms) (both ∷ ms') s1 s2 fs (t1 ∷ p1) (t2 ∷ p2) n path (eps, _, _, _, _)
        (q, y, d', o, b) =
      absurd (not_both_eps f v s1 s2 fs y t1 t2 p1 n path eps q d' o)
  unique (second ∷ ms) ms' s1 s2 fs p1 [] n path a b = absurd a
  unique (second ∷ ms) [] s1 s2 fs [] (t2 ∷ p2) n path a b = absurd b
  unique (second ∷ ms) [] s1 s2 fs (t1 ∷ p1) (t2 ∷ p2) n path a b = absurd b
  unique (second ∷ ms) (first ∷ ms') s1 s2 fs [] (t2 ∷ p2) n path a b = absurd b
  unique (second ∷ ms) (first ∷ ms') s1 s2 fs (t1 ∷ p1) (t2 ∷ p2) n path (_, y, d, o, a)
        (eps, _, _, _, _) =
      absurd (clash ms s1 s2 fs y t1 t2 p1 p2 n path eps d o a)
  unique (second ∷ ms) (second ∷ ms') s1 s2 fs p1 (t2 ∷ p2) n path (_, x, d, o, a)
        (_, y, d', _, b) =
      let same : y ≡ x = decided f _ d' d in
      ap (λ l. second ∷ l)
        (unique ms ms' s1 t2.nextstate x p1 p2 (open_state x o) path a
          (subst (λ (z : ℕ). Accepts (sequence_filter f) ms' s1 t2.nextstate z p1 p2) same b))
  unique (second ∷ ms) (both ∷ ms') s1 s2 fs [] (t2 ∷ p2) n path a b = absurd b
  unique (second ∷ ms) (both ∷ ms') s1 s2 fs (t1 ∷ p1) (t2 ∷ p2) n path (eps, _, _, _, _)
        (q, y, d', o, b) =
      absurd (not_both_eps f v s1 s2 fs y t1 t2 p1 n path (q ∙ eps) q d' o)
  unique (both ∷ ms) ms' s1 s2 fs [] p2 n path a b = absurd a
  unique (both ∷ ms) ms' s1 s2 fs (t1 ∷ p1) [] n path a b = absurd a
  unique (both ∷ ms) [] s1 s2 fs (t1 ∷ p1) (t2 ∷ p2) n path a b = absurd b
  unique (both ∷ ms) (first ∷ ms') s1 s2 fs (t1 ∷ p1) (t2 ∷ p2) n path (q, x, d, o, _)
        (eps, _, _, _, _) =
      absurd (not_both_eps f v s1 s2 fs x t1 t2 p1 n path eps q d o)
  unique (both ∷ ms) (second ∷ ms') s1 s2 fs (t1 ∷ p1) (t2 ∷ p2) n path (q, x, d, o, _)
        (eps, _, _, _, _) =
      absurd (not_both_eps f v s1 s2 fs x t1 t2 p1 n path (q ∙ eps) q d o)
  unique (both ∷ ms) (both ∷ ms') s1 s2 fs (t1 ∷ p1) (t2 ∷ p2) n path (_, x, d, o, a)
        (_, y, d', _, b) =
      let same : y ≡ x = decided f _ d' d in
      ap (λ l. both ∷ l)
        (unique ms ms' t1.nextstate t2.nextstate x p1 p2 (open_state x o) path.1 a (
          subst (λ (z : ℕ). Accepts (sequence_filter f) ms' t1.nextstate t2.nextstate z p1 p2) same
            b))
