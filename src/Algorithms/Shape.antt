-- ===== src/Algorithms/Shape.antt =====
-- Machines that differ in labels alone, and the flags that do not speak of labels.
use rustfst.Base.{ℕ, ◌≡◌, ◌⊎◌, inl, inr, ap, sym, subst, ◌∙◌, Bool, true, false, arith}
use rustfst.Tr.{Tr}
use rustfst.Weights.{Semiring, is_weighted}
use rustfst.Props.{
  Flag, weighted, unweighted, cyclic, acyclic, initial_cyclic, initial_acyclic, top_sorted,
  not_top_sorted, accessible, not_accessible, coaccessible, not_coaccessible, string, not_string,
  weighted_cycles, unweighted_cycles,
}
use rustfst.Fst.{VectorFst, num_states, final_of, TrAt}
use rustfst.Algorithms.Relabel.{Relabels, TrAt-relabelled, TrAt-original}
use rustfst.Fst.Meaning.{Walk, here, step, Holds, IsOnCycle, IsReached, ReachesFinal, IsString}

-- Each transition of `f` has one of `g` in its place, with its target and weight.
abbrev pub Follows : {W : Type 0} → VectorFst W → VectorFst W → Type 0
Follows {W} f g =
    (x i : ℕ) (a : Tr W)
    → TrAt f x i a
    → (b : Tr W) × TrAt g x i b × (b.nextstate ≡ a.nextstate) × (b.weight ≡ a.weight)

pub record SameShape {W : Type 0} (f g : VectorFst W) : Type 0 where
  pub to : Follows f g
  pub from : Follows g f
  pub finals : (x : ℕ) → final_of g x ≡ final_of f x
  pub start : g.start_state ≡ f.start_state
  pub size : num_states g ≡ num_states f

pub SameShape-sym : {W : Type 0} {f g : VectorFst W} → SameShape f g → SameShape g f
SameShape-sym s = record {
  to = s.from;
  from = s.to;
  finals = λ x. sym (s.finals x);
  start = sym s.start;
  size = sym s.size;
}

-- A relabelling that keeps targets and weights keeps the shape.
pub Relabels-SameShape :
    {W : Type 0} {h : Tr W → Tr W} {f g : VectorFst W}
    → ((a : Tr W) → (h a).nextstate ≡ a.nextstate)
    → ((a : Tr W) → (h a).weight ≡ a.weight)
    → Relabels h f g
    → SameShape f g
Relabels-SameShape {h} next weight r = record {
  to = λ x i a e. (h a, TrAt-relabelled r x i a e, next a, weight a);
  from = λ x i b e.
      let (a, at, q) = TrAt-original r x i b e in
      (
        a,
        at,
        sym (next a) ∙ ap (λ (t : Tr _). t.nextstate) q,
        sym (weight a) ∙ ap (λ (t : Tr _). t.weight) q,
      );
  finals = r.finals;
  start = r.start;
  size = r.size;
}

-- The flags that do not speak of labels.
abbrev pub unlabelled : Flag → Bool
unlabelled weighted = true
unlabelled unweighted = true
unlabelled cyclic = true
unlabelled acyclic = true
unlabelled initial_cyclic = true
unlabelled initial_acyclic = true
unlabelled top_sorted = true
unlabelled not_top_sorted = true
unlabelled accessible = true
unlabelled not_accessible = true
unlabelled coaccessible = true
unlabelled not_coaccessible = true
unlabelled string = true
unlabelled not_string = true
unlabelled weighted_cycles = true
unlabelled unweighted_cycles = true
unlabelled _ = false

module _ {W : Type 0} {f g : VectorFst W} (same : SameShape f g) where
  open same use {to, finals, start, size}

  Walk-shape : {x y : ℕ} → Walk f x y → Walk g x y
  Walk-shape here = here
  Walk-shape {y = y} (step i a e w) =
      let (b, at, next, _) = to _ i a e in
      step i b at (subst (λ (n : ℕ). Walk g n y) (sym next) (Walk-shape w))

  IsOnCycle-shape : (x : ℕ) → IsOnCycle f x → IsOnCycle g x
  IsOnCycle-shape x (i, a, e, w) =
      let (b, at, next, _) = to x i a e in
      (i, b, at, subst (λ (n : ℕ). Walk g n x) (sym next) (Walk-shape w))

  IsReached-shape : (x : ℕ) → IsReached f x → IsReached g x
  IsReached-shape x (r, e, w) = (r, start ∙ e, Walk-shape w)

  ReachesFinal-shape : (x : ℕ) → ReachesFinal f x → ReachesFinal g x
  ReachesFinal-shape x (t, w, walk, e) = (t, w, Walk-shape walk, finals t ∙ e)

module _ {W : Type 0} {f g : VectorFst W} (same : SameShape f g) where
  open same use {to, from, finals, start, size}

  IsString-shape : IsString f → IsString g
  IsString-shape s = record {
    start = start ∙ s.start;
    last_final = λ x e k. s.last_final x (omega (arith, size, e)) (sym (finals x) ∙ k);
    others_not = λ x lt. finals x ∙ s.others_not x (omega (arith, size));
    only = λ x i b at.
        let (a, at', next, _) = from x i b at in
        let (zero_index, target) = s.only x i a at' in (zero_index, sym next ∙ target);
    next = λ x lt.
        let (a, at) = s.next x (omega (arith, size)) in
        let (b, at', _, _) = to x 0 a at in (b, at');
  }

  Strings-shape : (num_states f ≡ 0) ⊎ IsString f → (num_states g ≡ 0) ⊎ IsString g
  Strings-shape (inl e) = inl (omega (arith, size))
  Strings-shape (inr s) = inr (IsString-shape s)

module _ {W : Type 0} ⦃sr : Semiring W⦄ {f g : VectorFst W} (same : SameShape f g) where
  open same use {to, from, finals, start, size}

  -- Machines of one shape agree on these flags.
  pub Holds-shape : (flag : Flag) → unlabelled flag ≡ true → Holds flag f → Holds flag g
  Holds-shape weighted u (inl (x, i, a, e, p)) =
      let (b, at, _, w) = to x i a e in inl (x, i, b, at, ap is_weighted w ∙ p)
  Holds-shape weighted u (inr (x, w, e, p)) = inr (x, w, finals x ∙ e, p)
  Holds-shape unweighted u (on_trs, on_finals) = (
    λ x i b at. let (a, e, _, w) = from x i b at in ap is_weighted (sym w) ∙ on_trs x i a e,
    λ x w e. on_finals x w (sym (finals x) ∙ e),
  )
  Holds-shape cyclic u (x, c) = (x, IsOnCycle-shape same x c)
  Holds-shape acyclic u never = λ x c. never x (IsOnCycle-shape (SameShape-sym same) x c)
  Holds-shape initial_cyclic u (x, e, c) = (x, start ∙ e, IsOnCycle-shape same x c)
  Holds-shape initial_acyclic u never =
      λ x e c. never x (sym start ∙ e) (IsOnCycle-shape (SameShape-sym same) x c)
  Holds-shape top_sorted u all =
      λ x i b at. let (a, e, next, _) = from x i b at in omega (arith, next, all x i a e)
  Holds-shape not_top_sorted u (x, i, a, e, p) =
      let (b, at, next, _) = to x i a e in (x, i, b, at, omega (arith, next))
  Holds-shape accessible u all = λ x lt. IsReached-shape same x (all x (omega (arith, size)))
  Holds-shape not_accessible u (x, lt, never) =
      (x, omega (arith, size), λ r. never (IsReached-shape (SameShape-sym same) x r))
  Holds-shape coaccessible u all = λ x lt. ReachesFinal-shape same x (all x (omega (arith, size)))
  Holds-shape not_coaccessible u (x, lt, never) =
      (x, omega (arith, size), λ r. never (ReachesFinal-shape (SameShape-sym same) x r))
  Holds-shape string u s = Strings-shape same s
  Holds-shape not_string u never = λ s. never (Strings-shape (SameShape-sym same) s)
  Holds-shape weighted_cycles u (x, i, a, e, p, walk) =
      let (b, at, next, w) = to x i a e in
      (
        x,
        i,
        b,
        at,
        ap is_weighted w ∙ p,
        subst (λ (n : ℕ). Walk g n x) (sym next) (Walk-shape same walk),
      )
  Holds-shape unweighted_cycles u all = λ x i b at walk.
      let (a, e, next, w) = from x i b at in
      ap is_weighted (sym w)
      ∙ all x i a e
          (Walk-shape (SameShape-sym same) (subst (λ (n : ℕ). Walk g n x) (sym next) walk))
  Holds-shape _ u h = absurd (ground arith)
