-- ===== src/Fst/Sound/Deleted.antt =====
-- `del_states` and `del_state`: the flags that they keep.
pub mod Back
use rustfst.Base.{
  ℕ, zero, suc, ◌<◌, ◌≤◌, ◌≡◌, ◌≢◌, ◌==◌, inl, inr, refl, sym, ap, subst, ◌∙◌, Bool, true, false,
  List, [], ◌∷◌, length, get_elem?, get_elem?-lt, get_elem?-some, Option, none, some, ok,
  Option-cases, Bool-cases, arith, ok-inj,
}
use native.Mathlib.Decide.{dec_lt}
use rustfst.Tr.{Tr, eps_label}
use rustfst.Weights.{Semiring, is_weighted}
use rustfst.Props.{
  FstProperties, Flag, acceptor, i_deterministic, o_deterministic, no_epsilons, no_i_epsilons,
  no_o_epsilons, i_label_sorted, o_label_sorted, unweighted, acyclic, initial_acyclic, top_sorted,
  unweighted_cycles,
}
use rustfst.Props.Update.{delete_states_properties}
use rustfst.Fst.{VectorFst, num_states, trs_of, final_of, TrAt}
use rustfst.Fst.Access.{lt_of_TrAt, lt_of_final}
use rustfst.Fst.Sound.Same.{universal, universal_sub, cycle_sub}
use rustfst.Fst.Meaning.{Walk, here, step, IsOnCycle, Unique, Sorted, Every, Holds, IsSound}
use rustfst.Fst.DelStates.{deleted, new_start, del_states, del_state}
use rustfst.Fst.DelStates.Redirect.{staying}
use rustfst.Fst.DelStates.Whole.{Deletes, del_states_lem}
use rustfst.Fst.DelStates.Marks.{del_states-Existing}
use rustfst.Fst.Valid.{IsValid}
use rustfst.Fst.Sound.Deleted.Back.{
  Keeps, Was, Was-lt, Was-unique, state_back, tr_back, Walk-back, cycle_back, Unique-back,
  Sorted-back, start_back,
}

module _ {W : Type 0} ⦃sr : Semiring W⦄ {f g : VectorFst W} {dstates : List ℕ}
    (d : Deletes f dstates g) (sound : IsSound f) where
  -- A flag on every transition and its labels.
  Every-back :
      (P : Tr W → Type 0)
      → ((a b : Tr W) → Keeps d.new_id a b → P a → P b)
      → Every (λ _ tr. P tr) f
      → Every (λ _ tr. P tr) g
  Every-back P kept all x i b h =
      let (s, was, j, a, at, k) = tr_back d x i b h in kept a b k (all s j a at)

  deleted_flags : (flag : Flag) → delete_states_properties f.properties flag ≡ true → Holds flag g
  unfolding delete_states_properties
  deleted_flags acceptor h =
      Every-back (λ t. t.ilabel ≡ t.olabel) (λ a b k e. k.ilabel ∙ e ∙ sym k.olabel)
        (sound acceptor (ground arith))
  deleted_flags i_deterministic h =
      Unique-back d (λ t. t.ilabel) (λ a b k. k.ilabel) (sound i_deterministic (ground arith))
  deleted_flags o_deterministic h =
      Unique-back d (λ t. t.olabel) (λ a b k. k.olabel) (sound o_deterministic (ground arith))
  deleted_flags no_epsilons h =
      Every-back (λ t. ¬ ((t.ilabel ≡ eps_label) × (t.olabel ≡ eps_label)))
        (λ a b k no (p, q). no (sym k.ilabel ∙ p, sym k.olabel ∙ q))
        (sound no_epsilons (ground arith))
  deleted_flags no_i_epsilons h =
      Every-back (λ t. t.ilabel ≢ eps_label) (λ a b k no p. no (sym k.ilabel ∙ p))
        (sound no_i_epsilons (ground arith))
  deleted_flags no_o_epsilons h =
      Every-back (λ t. t.olabel ≢ eps_label) (λ a b k no p. no (sym k.olabel ∙ p))
        (sound no_o_epsilons (ground arith))
  deleted_flags i_label_sorted h =
      Sorted-back d (λ t. t.ilabel) (λ a b k. k.ilabel) (sound i_label_sorted (ground arith))
  deleted_flags o_label_sorted h =
      Sorted-back d (λ t. t.olabel) (λ a b k. k.olabel) (sound o_label_sorted (ground arith))
  deleted_flags unweighted h =
      let (on_trs, on_finals) = sound unweighted (ground arith) in
      (
        Every-back (λ t. is_weighted t.weight ≡ false) (λ a b k e. ap is_weighted k.weight ∙ e)
            on_trs,
        λ x w e.
            let (s, was, _, finals) = state_back d x (lt_of_final g x w e) in
            on_finals s w (sym finals ∙ e),
      )
  deleted_flags acyclic h = λ x (i, b, at, w).
      let (s, was, _, _) = state_back d x (lt_of_TrAt g x i b at) in
      sound acyclic (ground arith) s (cycle_back d x s was (i, b, at, w))
  deleted_flags initial_acyclic h = λ x e c.
      let (s, was, start) = start_back d x e in
      sound initial_acyclic (ground arith) s start (cycle_back d x s was c)
  deleted_flags top_sorted h = λ x i b at.
      let (s, was, j, a, at', k) = tr_back d x i b at in
      Was-lt d x b.nextstate s a.nextstate was k.target (sound top_sorted (ground arith) s j a at')
  deleted_flags unweighted_cycles h = λ x i b at w.
      let (s, was, j, a, at', k) = tr_back d x i b at in
      let (t, end, v) = Walk-back d a.nextstate k.target w in
      let back = subst (λ u. Walk f a.nextstate u) (Was-unique d x t s end was) v in
      ap is_weighted k.weight ∙ sound unweighted_cycles (ground arith) s j a at' back
  deleted_flags flag h = absurd (ground arith)

-- `del_states` keeps a machine well formed and every property flag true.
pub del_states-IsSound :
    {W : Type 0} ⦃sr : Semiring W⦄ (f g : VectorFst W) (dstates : List ℕ)
    → IsValid f
    → num_states f ≤ deleted
    → IsSound f
    → del_states f dstates ≡ ok g
    → IsValid g × IsSound g
del_states-IsSound f g dstates v room sound h =
    let (g', e, d') = del_states_lem f dstates v room (del_states-Existing f g dstates h) in
    let d = subst (Deletes f dstates) (ok-inj (sym e ∙ h)) d' in
    (
      d.valid,
      λ flag q. deleted_flags d sound flag (subst (λ (p : FstProperties). p flag ≡ true) d.flags q),
    )

-- The flags that `del_state` lowers before it calls `del_states`.
lowered_flags :
    {W : Type 0} ⦃sr : Semiring W⦄ (f : VectorFst W)
    → IsSound f
    → IsSound (record f { properties = delete_states_properties f.properties })
unfolding delete_states_properties
lowered_flags f sound unweighted q = sound unweighted (ground arith)
lowered_flags f sound initial_acyclic q =
    let lowered = record f { properties = delete_states_properties f.properties } in
    λ x e c. sound initial_acyclic (ground arith) x e (cycle_sub f lowered (λ y i a h. h) x c)
lowered_flags f sound flag q =
    let lowered = record f { properties = delete_states_properties f.properties } in
    elim (Bool-cases (universal flag)) [
      | inl u ↦ universal_sub f lowered (λ x i a e. e) flag u (sound flag (ground arith))
      | inr u ↦ absurd (ground arith)
    ]

-- `del_state` keeps a machine well formed and every property flag true.
pub del_state-IsSound :
    {W : Type 0} ⦃sr : Semiring W⦄ (f g : VectorFst W) (s : ℕ)
    → IsValid f
    → num_states f ≤ deleted
    → IsSound f
    → del_state f s ≡ ok g
    → IsValid g × IsSound g
unfolding del_state
del_state-IsSound f g s v room sound h = elim (dec_lt s (num_states f)) [
  | yes lt ↦
      let lowered = record f { properties = delete_states_properties f.properties } in
      del_states-IsSound lowered g (s ∷ [])
        (record { start_exists = v.start_exists; counted = v.counted; targets = v.targets }) room
        (lowered_flags f sound) (ground (arith, h, lt))
  | no ge ↦ absurd (ground (arith, h, ge))
]
