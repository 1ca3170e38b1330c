-- ===== src/Fst/Sound/AddTr.antt =====
-- The properties of a machine after `add_tr`.
use rustfst.Base.{
  ℕ, suc, ◌-◌, ◌<◌, ◌≤◌, ◌≡◌, ◌≢◌, ◌⊎◌, inl, inr, refl, ap, sym, subst, ◌∙◌, ◌==◌, Bool, true,
  false, List, length, get_elem?, get_elem?-lt, some, ok, arith, Bool-cases, Option-cases, ⊎_elim,
  not, ◌&&◌, ltb, leb,
}
use mathlib.Core.Path.{subst₂}
use rustfst.Tr.{Tr, eps_label}
use rustfst.Weights.{Semiring, is_weighted}
use rustfst.Props.{
  Flag, FstProperties, acceptor, not_acceptor, i_deterministic, not_i_deterministic,
  o_deterministic, not_o_deterministic, epsilons, no_epsilons, i_epsilons, no_i_epsilons,
  o_epsilons, no_o_epsilons, i_label_sorted, not_i_label_sorted, o_label_sorted, not_o_label_sorted,
  weighted, unweighted, cyclic, acyclic, initial_cyclic, initial_acyclic, top_sorted,
  not_top_sorted, accessible, not_accessible, coaccessible, not_coaccessible, string, not_string,
  weighted_cycles, unweighted_cycles,
}
use rustfst.Props.Update.{add_tr_properties}
use rustfst.Fst.{VectorFst, trs_of, TrAt}
use rustfst.Fst.Mutate.{add_tr, last?}
use rustfst.Fst.Access.{
  AddsTr, add_tr-AddsTr, get_elem?-concat, get_elem?-concat_last, get_elem?-concat_old,
}
use rustfst.Fst.Meaning.{
  Walk, here, step, Holds, IsSound, acyclic_of_top_sorted, Every, Some, Sorted, Unsorted, Repeated,
  IsOnCycle,
}

last?-at : {W : Type 0} (l : List (Tr W)) (i : ℕ) → suc i ≡ length l → last? l ≡ get_elem? l i
last?-at l i e = let k : length l - 1 ≡ i = omega (arith, e) in ap (get_elem? l) k

module _ {W : Type 0} ⦃sr : Semiring W⦄ {f g : VectorFst W} {s : ℕ} {tr : Tr W}
    (adds : AddsTr f s tr g) where
  open adds use {in_range, trs, finals, start, size, props}

  -- The transitions after `add_tr` are the old ones and the new one.
  old_TrAt : (x i : ℕ) (a : Tr W) → TrAt f x i a → TrAt g x i a
  old_TrAt x i a h = elim (Bool-cases (s == x)) [
    | inl e ↦ ground (arith, trs x, get_elem?-concat_old (trs_of f s) tr i {a = a})
    | inr e ↦ ground (arith, trs x)
  ]

  new_TrAt : TrAt g s (length (trs_of f s)) tr
  new_TrAt = ground (arith, trs s, get_elem?-concat_last (trs_of f s) tr)

  TrAt-cases :
      (x i : ℕ) (a : Tr W)
      → TrAt g x i a
      → TrAt f x i a ⊎ ((x ≡ s) × (i ≡ length (trs_of f s)) × (a ≡ tr))
  TrAt-cases x i a h = elim (Bool-cases (s == x)) [
    | inl e ↦
        ⊎_elim (λ old. inl (ground arith)) (λ new. inr (ground arith))
          (get_elem?-concat (trs_of f s) tr i {a = a} (ground (arith, trs x)))
    | inr e ↦ inl (ground (arith, trs x))
  ]

  old-Walk : {x y : ℕ} → Walk f x y → Walk g x y
  old-Walk here = here
  old-Walk (step i a e w) = step i a (old_TrAt _ i a e) (old-Walk w)

  every : (P : ℕ → Tr W → Type 0) → Every P f → P s tr → Every P g
  every P all new x i a h = elim (TrAt-cases x i a h) [
    | inl e ↦ all x i a e
    | inr e ↦ subst₂ P (sym e.0) (sym e.2) new
  ]

  Some-old : (P : ℕ → Tr W → Type 0) → Some P f → Some P g
  Some-old P (x, i, a, e, p) = (x, i, a, old_TrAt x i a e, p)

  Some-new : (P : ℕ → Tr W → Type 0) → P s tr → Some P g
  Some-new P p = (s, length (trs_of f s), tr, new_TrAt, p)

  Some-cases :
      (P : ℕ → Tr W → Type 0) (b : Bool) → (b ≡ true → Some P f) → (b ≡ false → P s tr) → Some P g
  Some-cases P true old new = Some-old P (old refl)
  Some-cases P false old new = Some-new P (new refl)

  sorted :
      (label : Tr W → ℕ)
      → Sorted label f
      → ((p : Tr W) → last? (trs_of f s) ≡ some p → label p ≤ label tr)
      → Sorted label g
  sorted label all last x i a b ha hb = elim (TrAt-cases x (suc i) b hb) [
    | inl old ↦
        ⊎_elim (λ first. all x i a b first old)
          (λ new. absurd (ground (arith, get_elem?-lt (trs_of f x) (suc i) old)))
          (TrAt-cases x i a ha)
    | inr (e, k, q) ↦
        ⊎_elim (λ first. rw q (last a (last?-at (trs_of f s) i k ∙ rw e at first)))
          (λ new. absurd (omega (arith, new.1, k))) (TrAt-cases x i a ha)
  ]

  Unsorted-old : (label : Tr W → ℕ) → Unsorted label f → Unsorted label g
  Unsorted-old label (x, i, a, b, ha, hb, lt) =
      (x, i, a, b, old_TrAt x i a ha, old_TrAt x (suc i) b hb, lt)

  Unsorted-new :
      (label : Tr W → ℕ) (p : Tr W)
      → last? (trs_of f s) ≡ some p
      → label tr < label p
      → Unsorted label g
  Unsorted-new label p e lt =
      let n = length (trs_of f s) in
      let k : n ≡ suc (n - 1) = omega (arith, get_elem?-lt (trs_of f s) (n - 1) e) in
      (s, n - 1, p, tr, old_TrAt s (n - 1) p e, subst (λ j. TrAt g s j tr) k new_TrAt, lt)

  repeated : (label : Tr W → ℕ) → Repeated label f → Repeated label g
  repeated label (x, i, j, a, b, ha, hb, e, lt) =
      (x, i, j, a, b, old_TrAt x i a ha, old_TrAt x j b hb, e, lt)

  cycle : {x : ℕ} → IsOnCycle f x → IsOnCycle g x
  cycle {x} (i, a, e, w) = (i, a, old_TrAt x i a e, old-Walk w)

  -- What the flags of the new machine say of the old flags and of the transition.
  module _ (sound : IsSound f) where
    still_sorted :
        add_tr_properties f.properties s tr (last? (trs_of f s)) top_sorted ≡ true
        → Holds top_sorted g
    unfolding add_tr_properties
    still_sorted h = every (λ x a. x < a.nextstate) (sound top_sorted (ground arith)) (ground arith)

    flags :
        (flag : Flag)
        → add_tr_properties f.properties s tr (last? (trs_of f s)) flag ≡ true
        → Holds flag g
    unfolding add_tr_properties
    flags acceptor h =
        every (λ _ a. a.ilabel ≡ a.olabel) (sound acceptor (ground arith)) (ground arith)
    flags not_acceptor h =
        Some-cases (λ _ a. a.ilabel ≢ a.olabel) (tr.ilabel == tr.olabel)
          (λ e. sound not_acceptor (ground arith)) (λ e. ground arith)
    flags not_i_deterministic h =
        repeated (λ a. a.ilabel) (sound not_i_deterministic (ground arith))
    flags not_o_deterministic h =
        repeated (λ a. a.olabel) (sound not_o_deterministic (ground arith))
    flags epsilons h =
        Some-cases (λ _ a. (a.ilabel ≡ eps_label) × (a.olabel ≡ eps_label))
          (not ((tr.ilabel == eps_label) && (tr.olabel == eps_label)))
          (λ e. sound epsilons (ground arith)) (λ e. ground arith)
    flags no_epsilons h =
        every (λ _ a. ¬ ((a.ilabel ≡ eps_label) × (a.olabel ≡ eps_label)))
          (sound no_epsilons (ground arith)) (ground arith)
    flags i_epsilons h =
        Some-cases (λ _ a. a.ilabel ≡ eps_label) (not (tr.ilabel == eps_label))
          (λ e. sound i_epsilons (ground arith)) (λ e. ground arith)
    flags no_i_epsilons h =
        every (λ _ a. a.ilabel ≢ eps_label) (sound no_i_epsilons (ground arith)) (ground arith)
    flags o_epsilons h =
        Some-cases (λ _ a. a.olabel ≡ eps_label) (not (tr.olabel == eps_label))
          (λ e. sound o_epsilons (ground arith)) (λ e. ground arith)
    flags no_o_epsilons h =
        every (λ _ a. a.olabel ≢ eps_label) (sound no_o_epsilons (ground arith)) (ground arith)
    flags i_label_sorted h =
        sorted (λ a. a.ilabel) (sound i_label_sorted (ground arith)) (λ p e. ground arith)
    flags not_i_label_sorted h = elim (Option-cases (last? (trs_of f s))) [
      | inl e ↦ Unsorted-old (λ a. a.ilabel) (sound not_i_label_sorted (ground arith))
      | inr (p, e) ↦ elim (Bool-cases (ltb tr.ilabel p.ilabel)) [
        | inl lt ↦ Unsorted-new (λ a. a.ilabel) p e (ground arith)
        | inr ge ↦ Unsorted-old (λ a. a.ilabel) (sound not_i_label_sorted (ground arith))
      ]
    ]
    flags o_label_sorted h =
        sorted (λ a. a.olabel) (sound o_label_sorted (ground arith)) (λ p e. ground arith)
    flags not_o_label_sorted h = elim (Option-cases (last? (trs_of f s))) [
      | inl e ↦ Unsorted-old (λ a. a.olabel) (sound not_o_label_sorted (ground arith))
      | inr (p, e) ↦ elim (Bool-cases (ltb tr.olabel p.olabel)) [
        | inl lt ↦ Unsorted-new (λ a. a.olabel) p e (ground arith)
        | inr ge ↦ Unsorted-old (λ a. a.olabel) (sound not_o_label_sorted (ground arith))
      ]
    ]
    flags weighted h = elim (Bool-cases (is_weighted tr.weight)) [
      | inl e ↦ inl (Some-new (λ _ a. is_weighted a.weight ≡ true) e)
      | inr e ↦
          ⊎_elim (λ old. inl (Some-old (λ _ a. is_weighted a.weight ≡ true) old))
            (λ (x, w, at, p). inr (x, w, finals x ∙ at, p)) (sound weighted (ground arith))
    ]
    flags unweighted h =
        let (old, last) = sound unweighted (ground arith) in
        (
          every (λ _ a. is_weighted a.weight ≡ false) old (ground arith),
          λ x w at. last x w (sym (finals x) ∙ at),
        )
    flags cyclic h = let (x, c) = sound cyclic (ground arith) in (x, cycle c)
    flags acyclic h = acyclic_of_top_sorted (still_sorted (ground arith))
    flags initial_cyclic h =
        let (x, e, c) = sound initial_cyclic (ground arith) in (x, start ∙ e, cycle c)
    flags initial_acyclic h = λ x e. acyclic_of_top_sorted (still_sorted (ground arith)) x
    flags top_sorted h = still_sorted h
    flags not_top_sorted h =
        Some-cases (λ x a. a.nextstate ≤ x) (not (leb tr.nextstate s))
          (λ e. sound not_top_sorted (ground arith)) (λ e. ground arith)
    flags accessible h = λ x lt.
        let (r, e, w) = sound accessible (ground arith) x (omega (arith, size)) in
        (r, start ∙ e, old-Walk w)
    flags coaccessible h = λ x lt.
        let (t, w, walk, e) = sound coaccessible (ground arith) x (omega (arith, size)) in
        (t, w, old-Walk walk, finals t ∙ e)
    flags weighted_cycles h =
        let (x, i, a, e, p, w) = sound weighted_cycles (ground arith) in
        (x, i, a, old_TrAt x i a e, p, old-Walk w)
    flags i_deterministic h = absurd (ground arith)
    flags o_deterministic h = absurd (ground arith)
    flags not_accessible h = absurd (ground arith)
    flags not_coaccessible h = absurd (ground arith)
    flags string h = absurd (ground arith)
    flags not_string h = absurd (ground arith)
    flags unweighted_cycles h = absurd (ground arith)

-- Adding a transition to a machine keeps every property flag true: each flag set afterwards, of the
-- 32, holds of the machine with the transition, if those set before held.
pub add_tr-IsSound :
    {W : Type 0} ⦃sr : Semiring W⦄ (f g : VectorFst W) (s : ℕ) (tr : Tr W)
    → IsSound f
    → add_tr f s tr ≡ ok g
    → IsSound g
add_tr-IsSound f g s tr sound h flag e =
    let adds = add_tr-AddsTr f g s tr h in
    flags adds sound flag (subst (λ (p : FstProperties). p flag ≡ true) adds.props e)
