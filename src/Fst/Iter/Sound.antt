-- ===== src/Fst/Iter/Sound.antt =====
-- The properties of a machine after `set_tr`.
use rustfst.Base.{
  ℕ, ◌≡◌, ◌≢◌, ◌⊎◌, inl, inr, refl, sym, subst, ◌∙◌, ◌==◌, if◌then◌else◌, ◌&&◌, Bool, true, false,
  not, get_elem?, get_elem?-lt, some, arith, Bool-cases, ⊎_elim,
}
use mathlib.Core.Path.{subst₂}
use rustfst.Tr.{Tr, eps_label}
use rustfst.Weights.{Semiring, is_weighted}
use rustfst.Props.{
  Flag, FstProperties, acceptor, not_acceptor, epsilons, no_epsilons, i_epsilons, no_i_epsilons,
  o_epsilons, no_o_epsilons, weighted, unweighted,
}
use rustfst.Fst.{VectorFst, trs_of, TrAt}
use rustfst.Fst.Access.{get_elem?-set}
use rustfst.Fst.Meaning.{Holds, IsSound, Every, Some}
use rustfst.Fst.Iter.{
  with_iter, set_tr_unchecked, compute_new_properties_all, update_properties_labels,
  update_properties_weights, keep_only_relevant_properties,
}
use rustfst.Fst.Iter.Replace.{Replaces, with_tr_set-Replaces}

module _ {W : Type 0} ⦃sr : Semiring W⦄ {f g : VectorFst W} {s i : ℕ} {old new : Tr W}
    (rep : Replaces f s i old new g) where
  open rep use {place, trs, finals, start, size, props}

  get_elem?-new :
      (j : ℕ) → get_elem? (trs_of g s) j ≡ (if i == j then some new else get_elem? (trs_of f s) j)
  get_elem?-new j =
      ground (arith, trs s, get_elem?-set (trs_of f s) i j new (get_elem?-lt (trs_of f s) i place))

  replaced_TrAt : TrAt g s i new
  replaced_TrAt = ground (arith, get_elem?-new i)

  -- A transition of the new machine is the new one, or stands elsewhere and is old.
  new-TrAt-cases : (x j : ℕ) (a : Tr W) → TrAt g x j a → ((x ≡ s) × (a ≡ new)) ⊎ TrAt f x j a
  new-TrAt-cases x j a h = elim (Bool-cases (s == x)) [
    | inl e ↦ elim (Bool-cases (i == j)) [
      | inl q ↦ inl (ground (arith), ground (arith, get_elem?-new j))
      | inr q ↦ inr (ground (arith, get_elem?-new j))
    ]
    | inr e ↦ inr (ground (arith, trs x))
  ]

  old-TrAt-cases : (x j : ℕ) (a : Tr W) → TrAt f x j a → ((x ≡ s) × (a ≡ old)) ⊎ TrAt g x j a
  old-TrAt-cases x j a h = elim (Bool-cases (s == x)) [
    | inl e ↦ elim (Bool-cases (i == j)) [
      | inl q ↦ inl (ground (arith), ground (arith, place))
      | inr q ↦ inr (ground (arith, get_elem?-new j))
    ]
    | inr e ↦ inr (ground (arith, trs x))
  ]

  Every-new : (P : ℕ → Tr W → Type 0) → Every P f → P s new → Every P g
  Every-new P all p x j a h = elim (new-TrAt-cases x j a h) [
    | inl (e, q) ↦ subst₂ P (sym e) (sym q) p
    | inr q ↦ all x j a q
  ]

  Some-other : (P : ℕ → Tr W → Type 0) → Some P f → ¬ P s old → Some P g
  Some-other P (x, j, a, h, p) not_old = elim (old-TrAt-cases x j a h) [
    | inl (e, q) ↦ absurd (not_old (subst₂ P e q p))
    | inr q ↦ (x, j, a, q, p)
  ]

  Some-replaced : (P : ℕ → Tr W → Type 0) → P s new → Some P g
  Some-replaced P p = (s, i, new, replaced_TrAt, p)

  -- Some transition meets `P` if the new one does, or if the old one did not and another did.
  Some-either :
      (P : ℕ → Tr W → Type 0) (b : Bool)
      → (b ≡ true → P s new)
      → (b ≡ false → Some P f)
      → (b ≡ false → ¬ P s old)
      → Some P g
  Some-either P true yes_new was not_old = Some-replaced P (yes_new refl)
  Some-either P false yes_new was not_old = Some-other P (was refl) (not_old refl)

  module _ (sound : IsSound f) where
    replaced_flags :
        (flag : Flag) → compute_new_properties_all f.properties old new flag ≡ true → Holds flag g
    unfolding compute_new_properties_all update_properties_labels update_properties_weights
        keep_only_relevant_properties
    replaced_flags acceptor h =
        Every-new (λ _ a. a.ilabel ≡ a.olabel) (sound acceptor (ground arith)) (ground arith)
    replaced_flags not_acceptor h =
        Some-either (λ _ a. a.ilabel ≢ a.olabel) (not (new.ilabel == new.olabel))
          (λ e. ground arith) (λ e. sound not_acceptor (ground arith)) (λ e k. ground arith)
    replaced_flags epsilons h =
        Some-either (λ _ a. (a.ilabel ≡ eps_label) × (a.olabel ≡ eps_label))
          ((new.ilabel == eps_label) && (new.olabel == eps_label)) (λ e. ground arith)
          (λ e. sound epsilons (ground arith)) (λ e k. ground arith)
    replaced_flags no_epsilons h =
        Every-new (λ _ a. ¬ ((a.ilabel ≡ eps_label) × (a.olabel ≡ eps_label)))
          (sound no_epsilons (ground arith)) (ground arith)
    replaced_flags i_epsilons h =
        Some-either (λ _ a. a.ilabel ≡ eps_label) (new.ilabel == eps_label) (λ e. ground arith)
          (λ e. sound i_epsilons (ground arith)) (λ e k. ground arith)
    replaced_flags no_i_epsilons h =
        Every-new (λ _ a. a.ilabel ≢ eps_label) (sound no_i_epsilons (ground arith)) (ground arith)
    replaced_flags o_epsilons h =
        Some-either (λ _ a. a.olabel ≡ eps_label) (new.olabel == eps_label) (λ e. ground arith)
          (λ e. sound o_epsilons (ground arith)) (λ e k. ground arith)
    replaced_flags no_o_epsilons h =
        Every-new (λ _ a. a.olabel ≢ eps_label) (sound no_o_epsilons (ground arith)) (ground arith)
    replaced_flags weighted h = elim (Bool-cases (is_weighted new.weight)) [
      | inl e ↦ inl (Some-replaced (λ _ a. is_weighted a.weight ≡ true) e)
      | inr e ↦
          ⊎_elim
            (λ on_tr.
              inl (Some-other (λ _ a. is_weighted a.weight ≡ true) on_tr (λ k. ground arith)))
            (λ (x, w, at, p). inr (x, w, finals x ∙ at, p)) (sound weighted (ground arith))
    ]
    replaced_flags unweighted h =
        let (on_trs, on_finals) = sound unweighted (ground arith) in
        (
          Every-new (λ _ a. is_weighted a.weight ≡ false) on_trs (ground arith),
          λ x w at. on_finals x w (sym (finals x) ∙ at),
        )
    replaced_flags flag h = absurd (ground arith)

-- Replacing a transition through the iterator keeps every property flag true.
pub set_tr-IsSound :
    {W : Type 0} ⦃sr : Semiring W⦄ (f : VectorFst W) (s i : ℕ) (old new : Tr W)
    → IsSound f
    → TrAt f s i old
    → IsSound (with_iter f s (λ it. set_tr_unchecked it i new))
set_tr-IsSound f s i old new sound h flag e =
    let rep = with_tr_set-Replaces f s i old new h in
    replaced_flags rep sound flag (subst (λ (p : FstProperties). p flag ≡ true) rep.props e)
