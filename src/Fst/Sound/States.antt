-- ===== src/Fst/Sound/States.antt =====
-- The properties of new machines, and after `set_start`, new states and `delete_trs`.
use rustfst.Base.{
  ℕ, ◌+◌, ◌<◌, ◌≡◌, ◌≢◌, ◌⊎◌, inl, inr, refl, ap, sym, length, ◌-◌, subst, ◌∙◌, ◌==◌, true, [],
  none, some, ok, arith, Bool-cases, Option-cases, ⊎_elim,
}
use rustfst.Props.Masks.{null_properties}
use native.Mathlib.Decide.{dec_lt}
use rustfst.Tr.{Tr}
use rustfst.Weights.{Semiring}
use rustfst.Props.{
  Flag, FstProperties, acceptor, i_deterministic, o_deterministic, no_epsilons, no_i_epsilons,
  no_o_epsilons, i_label_sorted, o_label_sorted, weighted, unweighted, acyclic, initial_cyclic,
  initial_acyclic, top_sorted, accessible, not_accessible, coaccessible, not_coaccessible, string,
  not_string, unweighted_cycles,
}
use rustfst.Props.Update.{
  set_start_properties, add_state_properties, delete_trs_properties, delete_all_states_properties,
}
use rustfst.Fst.{VectorFst, num_states, final_of, TrAt}
use rustfst.Fst.Mutate.{
  new, set_start, set_start_unchecked, add_state, add_states, delete_trs, del_all_states,
}
use rustfst.Fst.Access.{on_state-eq-ok, lt_of_TrAt, lt_of_final}
use rustfst.Fst.Effects.{
  ClearsTrs, delete_trs-ClearsTrs, AddsStates, add_state-AddsStates, add_states-AddsStates,
}
use rustfst.Fst.Meaning.{Holds, IsSound, IsString}
use rustfst.Fst.Sound.Same.{
  Includes, same_Includes, Walk-sub, cycle_sub, universal_sub, universal, Holds-same,
}

-- A machine without states has the properties of `null_properties`.
module _ {W : Type 0} ⦃sr : Semiring W⦄ (g : VectorFst W) (none_left : g.states ≡ []) where
  no_TrAt : (x i : ℕ) (a : Tr W) → ¬ TrAt g x i a
  no_TrAt x i a e = omega (arith, lt_of_TrAt g x i a e, ap length none_left)

  no_final : (x : ℕ) (w : W) → final_of g x ≢ some w
  no_final x w e = omega (arith, lt_of_final g x w e, ap length none_left)

  null_flags : (flag : Flag) → null_properties flag ≡ true → Holds flag g
  null_flags acceptor h = λ x i a e. absurd (no_TrAt x i a e)
  null_flags i_deterministic h = λ x i j a b e. absurd (no_TrAt x i a e)
  null_flags o_deterministic h = λ x i j a b e. absurd (no_TrAt x i a e)
  null_flags no_epsilons h = λ x i a e. absurd (no_TrAt x i a e)
  null_flags no_i_epsilons h = λ x i a e. absurd (no_TrAt x i a e)
  null_flags no_o_epsilons h = λ x i a e. absurd (no_TrAt x i a e)
  null_flags i_label_sorted h = λ x i a b e. absurd (no_TrAt x i a e)
  null_flags o_label_sorted h = λ x i a b e. absurd (no_TrAt x i a e)
  null_flags unweighted h = (λ x i a e. absurd (no_TrAt x i a e), λ x w e. absurd (no_final x w e))
  null_flags acyclic h = λ x (i, a, e, w). no_TrAt x i a e
  null_flags initial_acyclic h = λ x _ (i, a, e, w). no_TrAt x i a e
  null_flags top_sorted h = λ x i a e. absurd (no_TrAt x i a e)
  null_flags accessible h = λ x lt. absurd (omega (arith, ap length none_left))
  null_flags coaccessible h = λ x lt. absurd (omega (arith, ap length none_left))
  null_flags string h = inl (ap length none_left)
  null_flags unweighted_cycles h = λ x i a e. absurd (no_TrAt x i a e)
  null_flags flag h = absurd (ground arith)

module _ {W : Type 0} ⦃sr : Semiring W⦄ (f : VectorFst W) (id : ℕ) (sound : IsSound f) where
  started : VectorFst W
  started = set_start_unchecked f id

  started_sub : Includes f started
  unfolding started set_start_unchecked
  started_sub x i a e = e

  started_sup : Includes started f
  unfolding started set_start_unchecked
  started_sup x i a e = e

  start_flags : (flag : Flag) → set_start_properties f.properties flag ≡ true → Holds flag started
  unfolding set_start_properties started set_start_unchecked
  start_flags weighted h = ⊎_elim inl inr (sound weighted (ground arith))
  start_flags unweighted h = sound unweighted (ground arith)
  start_flags initial_acyclic h =
      λ x e c. sound acyclic (ground arith) x (cycle_sub f started started_sub x c)
  start_flags coaccessible h = λ x lt.
      let (t, w, p, e) = sound coaccessible (ground arith) x lt in
      (t, w, Walk-sub started f started_sup p, e)
  start_flags not_coaccessible h =
      let (x, lt, no_walk) = sound not_coaccessible (ground arith) in
      (x, lt, λ (t, w, p, e). no_walk (t, w, Walk-sub f started started_sub p, e))
  start_flags initial_cyclic h = absurd (ground arith)
  start_flags accessible h = absurd (ground arith)
  start_flags not_accessible h = absurd (ground arith)
  start_flags string h = absurd (ground arith)
  start_flags not_string h = absurd (ground arith)
  start_flags flag h =
      Holds-same f started started_sub started_sup flag refl (sound flag (ground arith))

-- Choosing the start state keeps every property flag true.
pub set_start-IsSound :
    {W : Type 0} ⦃sr : Semiring W⦄ (f g : VectorFst W) (id : ℕ)
    → IsSound f
    → set_start f id ≡ ok g
    → IsSound g
unfolding set_start set_start_unchecked started
set_start-IsSound f g id sound h =
    let (st, at, e) = on_state-eq-ok f id (λ _. set_start_unchecked f id) h in
    subst IsSound e (start_flags f id sound)

module _ {W : Type 0} ⦃sr : Semiring W⦄ {f g : VectorFst W} {n : ℕ} (adds : AddsStates f n g)
    (sound : IsSound f) where
  open adds use {trs, finals, start, size, props}

  states_sub : Includes f g
  states_sub = (same_Includes f g trs).0

  states_sup : Includes g f
  states_sup = (same_Includes f g trs).1

  -- A machine is no string because of states that were added to it.
  IsString-back : (num_states g ≡ 0) ⊎ IsString g → (num_states f ≡ 0) ⊎ IsString f
  IsString-back (inl e) = inl (omega (arith, size))
  IsString-back (inr str) = elim (dec_lt 0 n) [
    | yes more ↦
        absurd (str.last_final (num_states f + n - 1) (omega (arith, size)) (no_final_new more))
    | no same ↦ inr (record {
      start = sym start ∙ str.start;
      last_final = λ x e final. str.last_final x (omega (arith, size)) (finals x ∙ final);
      others_not = λ x lt. sym (finals x) ∙ str.others_not x (omega (arith, size));
      only = λ x i a e. str.only x i a (states_sup x i a e);
      next = λ x lt. let (a, e) = str.next x (omega (arith, size)) in (a, states_sub x 0 a e);
    })
  ]
    where
      no_final_new : 0 < n → final_of g (num_states f + n - 1) ≡ none
      no_final_new more = elim (Option-cases (final_of f (num_states f + n - 1))) [
        | inl e ↦ finals (num_states f + n - 1) ∙ e
        | inr (w, e) ↦ absurd (omega (arith, lt_of_final f (num_states f + n - 1) w e))
      ]

  states_flags : (flag : Flag) → add_state_properties f.properties flag ≡ true → Holds flag g
  unfolding add_state_properties
  states_flags weighted h =
      ⊎_elim (λ (x, i, a, at, p). inl (x, i, a, states_sup x i a at, p))
        (λ (x, w, at, p). inr (x, w, finals x ∙ at, p)) (sound weighted (ground arith))
  states_flags unweighted h =
      let (on_trs, on_finals) = sound unweighted (ground arith) in
      (
        λ x i a at. on_trs x i a (states_sub x i a at),
        λ x w at. on_finals x w (sym (finals x) ∙ at),
      )
  states_flags initial_cyclic h =
      let (x, e, c) = sound initial_cyclic (ground arith) in
      (x, start ∙ e, cycle_sub g f states_sup x c)
  states_flags initial_acyclic h =
      λ x e c. sound initial_acyclic (ground arith) x (sym start ∙ e) (cycle_sub f g states_sub x c)
  states_flags not_accessible h =
      let (x, lt, no_walk) = sound not_accessible (ground arith) in
      (x, omega (arith, size), λ (r, e, p). no_walk (r, sym start ∙ e, Walk-sub f g states_sub p))
  states_flags not_coaccessible h =
      let (x, lt, no_walk) = sound not_coaccessible (ground arith) in
      (
        x,
        omega (arith, size),
        λ (t, w, p, e). no_walk (t, w, Walk-sub f g states_sub p, sym (finals t) ∙ e),
      )
  states_flags not_string h = λ str. sound not_string (ground arith) (IsString-back str)
  states_flags accessible h = absurd (ground arith)
  states_flags coaccessible h = absurd (ground arith)
  states_flags string h = absurd (ground arith)
  states_flags flag h = Holds-same f g states_sub states_sup flag refl (sound flag (ground arith))

-- Adding one state or any number of states keeps every property flag true.
pub add_states-IsSound :
    {W : Type 0} ⦃sr : Semiring W⦄ (f : VectorFst W) (n : ℕ)
    → IsSound f
    → IsSound (add_state f).0 × IsSound (add_states f n)
add_states-IsSound f n sound = (
  λ flag e.
      let adds = add_state-AddsStates f in
      states_flags adds sound flag (subst (λ (p : FstProperties). p flag ≡ true) adds.props e),
  λ flag e.
      let adds = add_states-AddsStates f n in
      states_flags adds sound flag (subst (λ (p : FstProperties). p flag ≡ true) adds.props e),
)

module _ {W : Type 0} ⦃sr : Semiring W⦄ {f g : VectorFst W} {s : ℕ} (clears : ClearsTrs f s g)
    (sound : IsSound f) where
  open clears use {trs, finals, start, size, props}

  cleared_sub : Includes f g
  cleared_sub x i a h = elim (Bool-cases (s == x)) [
    | inl e ↦ ground (arith, trs x)
    | inr e ↦ ground (arith, trs x)
  ]

  clear_flags : (flag : Flag) → delete_trs_properties f.properties flag ≡ true → Holds flag g
  unfolding delete_trs_properties
  clear_flags unweighted h =
      let (on_trs, on_finals) = sound unweighted (ground arith) in
      (
        λ x i a at. on_trs x i a (cleared_sub x i a at),
        λ x w at. on_finals x w (sym (finals x) ∙ at),
      )
  clear_flags initial_acyclic h = λ x e c.
      sound initial_acyclic (ground arith) x (sym start ∙ e) (cycle_sub f g cleared_sub x c)
  clear_flags not_accessible h =
      let (x, lt, no_walk) = sound not_accessible (ground arith) in
      (x, omega (arith, size), λ (r, e, p). no_walk (r, sym start ∙ e, Walk-sub f g cleared_sub p))
  clear_flags not_coaccessible h =
      let (x, lt, no_walk) = sound not_coaccessible (ground arith) in
      (
        x,
        omega (arith, size),
        λ (t, w, p, e). no_walk (t, w, Walk-sub f g cleared_sub p, sym (finals t) ∙ e),
      )
  clear_flags flag h = elim (Bool-cases (universal flag)) [
    | inl u ↦ universal_sub f g cleared_sub flag u (sound flag (ground arith))
    | inr u ↦ absurd (ground arith)
  ]

-- Deleting the transitions of a state keeps every property flag true.
pub delete_trs-IsSound :
    {W : Type 0} ⦃sr : Semiring W⦄ (f g : VectorFst W) (s : ℕ)
    → IsSound f
    → delete_trs f s ≡ ok g
    → IsSound g
delete_trs-IsSound f g s sound h flag e =
    let clears = delete_trs-ClearsTrs f g s h in
    clear_flags clears sound flag (subst (λ (p : FstProperties). p flag ≡ true) clears.props e)

-- The new machine, and any machine whose states are deleted, carry true properties.
pub new-IsSound :
    {W : Type 0} ⦃sr : Semiring W⦄ (f : VectorFst W)
    → IsSound (new {W = W}) × IsSound (del_all_states f)
unfolding del_all_states delete_all_states_properties
new-IsSound f = (null_flags new refl, null_flags (del_all_states f) refl)
