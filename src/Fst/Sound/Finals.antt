-- ===== src/Fst/Sound/Finals.antt =====
-- The properties of a machine after `set_final` and `delete_final_weight`.
use rustfst.Base.{
  ℕ, ◌≡◌, ◌↔◌, inl, inr, refl, sym, subst, ◌∙◌, ◌==◌, true, Option, ok, arith, Bool-cases,
  Option-cases, ⊎_elim,
}
use rustfst.Weights.{Semiring}
use rustfst.Props.{
  Flag, FstProperties, weighted, unweighted, initial_cyclic, initial_acyclic, accessible,
  not_accessible, coaccessible, not_coaccessible, string, not_string,
}
use rustfst.Props.Update.{set_final_properties, weighted_option}
use rustfst.Fst.{VectorFst, final_of}
use rustfst.Fst.Mutate.{new, set_final, delete_final_weight}
use rustfst.Fst.Effects.{SetsFinal, set_final-SetsFinal, delete_final_weight-SetsFinal}
use rustfst.Fst.Meaning.{Holds, IsSound, IsReached}
use rustfst.Fst.Sound.Same.{Includes, same_Includes, Walk-sub, cycle_sub, Holds-same}

module _ {W : Type 0} ⦃sr : Semiring W⦄ {f g : VectorFst W} {s : ℕ} {w : Option W}
    (sets : SetsFinal f s w g) (sound : IsSound f) where
  open sets use {trs, finals, start, size, props}

  final_sub : Includes f g
  final_sub = (same_Includes f g trs).0

  final_sup : Includes g f
  final_sup = (same_Includes f g trs).1

  IsReached-final : (x : ℕ) → IsReached f x ↔ IsReached g x
  IsReached-final x = (
    λ (r, e, p). (r, start ∙ e, Walk-sub g f final_sup p),
    λ (r, e, p). (r, sym start ∙ e, Walk-sub f g final_sub p),
  )

  final_weighted :
      set_final_properties f.properties (final_of f s) w weighted ≡ true → Holds weighted g
  unfolding set_final_properties weighted_option
  final_weighted h = elim (Bool-cases (weighted_option w)) [
    | inl new ↦ elim (Option-cases w) [
      | inl e ↦ absurd (ground arith)
      | inr (v, e) ↦ inr (s, v, ground (arith, finals s), ground arith)
    ]
    | inr old ↦
        ⊎_elim (λ (x, i, a, at, p). inl (x, i, a, final_sup x i a at, p))
          (λ (x, v, at, p). inr (x, v, ground (arith, finals x), p)) (sound weighted (ground arith))
  ]

  final_unweighted :
      set_final_properties f.properties (final_of f s) w unweighted ≡ true → Holds unweighted g
  unfolding set_final_properties weighted_option
  final_unweighted h =
      let (on_trs, on_finals) = sound unweighted (ground arith) in
      (
        λ x i a at. on_trs x i a (final_sub x i a at),
        λ x v at. elim (Bool-cases (s == x)) [
          | inl e ↦ ground (arith, finals x)
          | inr e ↦ on_finals x v (ground (arith, finals x))
        ],
      )

  final_flags :
      (flag : Flag) → set_final_properties f.properties (final_of f s) w flag ≡ true → Holds flag g
  unfolding set_final_properties
  final_flags weighted h = final_weighted h
  final_flags unweighted h = final_unweighted h
  final_flags initial_cyclic h =
      let (x, e, c) = sound initial_cyclic (ground arith) in
      (x, start ∙ e, cycle_sub g f final_sup x c)
  final_flags initial_acyclic h =
      λ x e c. sound initial_acyclic (ground arith) x (sym start ∙ e) (cycle_sub f g final_sub x c)
  final_flags accessible h =
      λ x lt. (IsReached-final x).0 (sound accessible (ground arith) x (omega (arith, size)))
  final_flags not_accessible h =
      let (x, lt, no_walk) = sound not_accessible (ground arith) in
      (x, omega (arith, size), λ r. no_walk ((IsReached-final x).1 r))
  final_flags coaccessible h = absurd (ground arith)
  final_flags not_coaccessible h = absurd (ground arith)
  final_flags string h = absurd (ground arith)
  final_flags not_string h = absurd (ground arith)
  final_flags flag h = Holds-same f g final_sub final_sup flag refl (sound flag (ground arith))

-- Setting a final weight keeps every property flag true.
pub set_final-IsSound :
    {W : Type 0} ⦃sr : Semiring W⦄ (f g : VectorFst W) (s : ℕ) (w : W)
    → IsSound f
    → set_final f s w ≡ ok g
    → IsSound g
set_final-IsSound f g s w sound h flag e =
    let sets = set_final-SetsFinal f g s w h in
    final_flags sets sound flag (subst (λ (p : FstProperties). p flag ≡ true) sets.props e)

-- Deleting a final weight keeps every property flag true.
pub delete_final_weight-IsSound :
    {W : Type 0} ⦃sr : Semiring W⦄ (f g : VectorFst W) (s : ℕ)
    → IsSound f
    → delete_final_weight f s ≡ ok g
    → IsSound g
delete_final_weight-IsSound f g s sound h flag e =
    let sets = delete_final_weight-SetsFinal f g s h in
    final_flags sets sound flag (subst (λ (p : FstProperties). p flag ≡ true) sets.props e)
