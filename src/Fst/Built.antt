-- ===== src/Fst/Built.antt =====
-- The machines that calls of `MutableFst` build, each call a step.
use rustfst.Base.{ℕ, ◌<◌, ◌≤◌, ◌≡◌, refl, ap, subst, List, Option, none, ok, arith}
use rustfst.Tr.{Tr}
use rustfst.Weights.{Semiring}
use rustfst.Fst.{VectorFst, num_states}
use rustfst.Fst.Mutate.{
  new, set_start, set_final, delete_final_weight, add_state, add_states, add_tr, delete_trs,
  del_all_states, pop_trs, take_final_weight, clear_trs, put_final,
}
use rustfst.Fst.Access.{on_state-eq-ok}
use rustfst.Fst.DelStates.{deleted, del_states, del_state}
use rustfst.Fst.Sound.Deleted.{del_states-IsSound, del_state-IsSound}
use rustfst.Fst.Valid.{
  IsValid, add_states-IsValid, delete_trs-IsValid, set_start-IsValid, add_tr-IsValid,
  set_final-IsValid, delete_final-IsValid, empty-IsValid, add_state-IsValid, del_all_states-IsValid,
}
use rustfst.Fst.Meaning.{IsSound}
use rustfst.Fst.Sound.AddTr.{add_tr-IsSound}
use rustfst.Fst.Sound.Finals.{set_final-IsSound, delete_final_weight-IsSound}
use rustfst.Fst.Sound.States.{
  set_start-IsSound, add_states-IsSound, delete_trs-IsSound, new-IsSound,
}

-- The machines that successful calls make of the new machine, with transitions to existing states.
pub data Built {W : Type 0} ⦃sr : Semiring W⦄ : VectorFst W → Type 0 where
  start : Built new
  by_start : {f g : VectorFst W} (s : ℕ) → Built f → set_start f s ≡ ok g → Built g
  by_final : {f g : VectorFst W} (s : ℕ) (w : W) → Built f → set_final f s w ≡ ok g → Built g
  by_no_final : {f g : VectorFst W} (s : ℕ) → Built f → delete_final_weight f s ≡ ok g → Built g
  by_state : {f g : VectorFst W} → Built f → (add_state f).0 ≡ g → Built g
  by_states : {f g : VectorFst W} (n : ℕ) → Built f → add_states f n ≡ g → Built g
  by_tr :
      {f g : VectorFst W} (s : ℕ) (tr : Tr W)
      → Built f
      → tr.nextstate < num_states f
      → add_tr f s tr ≡ ok g
      → Built g
  by_no_trs : {f g : VectorFst W} (s : ℕ) → Built f → delete_trs f s ≡ ok g → Built g
  by_pop :
      {f g : VectorFst W} (s : ℕ) (trs : List (Tr W))
      → Built f
      → pop_trs f s ≡ ok (g, trs)
      → Built g
  by_take :
      {f g : VectorFst W} (s : ℕ) (w : Option W)
      → Built f
      → take_final_weight f s ≡ ok (g, w)
      → Built g
  by_del_states :
      {f g : VectorFst W} (dstates : List ℕ)
      → Built f
      → num_states f ≤ deleted
      → del_states f dstates ≡ ok g
      → Built g
  by_del_state :
      {f g : VectorFst W} (s : ℕ)
      → Built f
      → num_states f ≤ deleted
      → del_state f s ≡ ok g
      → Built g
  by_no_states : {f g : VectorFst W} → Built f → del_all_states f ≡ g → Built g

-- What `pop_trs` and `take_final_weight` leave, `delete_trs` and `delete_final_weight` leave.
pop_trs-delete_trs :
    {W : Type 0} (f g : VectorFst W) (s : ℕ) (trs : List (Tr W))
    → pop_trs f s ≡ ok (g, trs)
    → delete_trs f s ≡ ok g
unfolding pop_trs delete_trs
pop_trs-delete_trs f g s trs h =
    let (st, at, e) = on_state-eq-ok f s (λ st. (clear_trs f s st, st.trs)) h in
    ground (arith, at, ap (λ p. p.0) e)

take_final-delete_final :
    {W : Type 0} ⦃sr : Semiring W⦄ (f g : VectorFst W) (s : ℕ) (w : Option W)
    → take_final_weight f s ≡ ok (g, w)
    → delete_final_weight f s ≡ ok g
unfolding take_final_weight delete_final_weight
take_final-delete_final f g s w h =
    let (st, at, e) = on_state-eq-ok f s (λ st. (put_final f s none st, st.final_weight)) h in
    ground (arith, at, ap (λ p. p.0) e)

-- A machine made from the new one by successful calls of `set_start`, `set_final`,
-- `delete_final_weight`, `take_final_weight`, `add_state`, `add_states`, `add_tr`, `delete_trs`,
-- `pop_trs`, `del_state`, `del_states` and `del_all_states` is well formed, and every flag that its
-- properties carry is true of it, if each transition given to `add_tr` leads to a state that exists at
-- that call, which `add_tr` does not check, and if the machines given to `del_state` and `del_states`
-- have fewer than 2 ^ 32 states.
pub built_lem : {W : Type 0} ⦃sr : Semiring W⦄ {f : VectorFst W} → Built f → IsValid f × IsSound f
built_lem start = (empty-IsValid new refl refl, (new-IsSound new).0)
built_lem (by_start {f} {g} s b e) =
    let (v, sound) = built_lem b in (set_start-IsValid f g s v e, set_start-IsSound f g s sound e)
built_lem (by_final {f} {g} s w b e) =
    let (v, sound) = built_lem b in
    (set_final-IsValid f g s w v e, set_final-IsSound f g s w sound e)
built_lem (by_no_final {f} {g} s b e) =
    let (v, sound) = built_lem b in
    (delete_final-IsValid f g s v e, delete_final_weight-IsSound f g s sound e)
built_lem (by_state {f} {g} b e) =
    let (v, sound) = built_lem b in
    (subst IsValid e (add_state-IsValid f v), subst IsSound e (add_states-IsSound f 1 sound).0)
built_lem (by_states {f} {g} n b e) =
    let (v, sound) = built_lem b in
    (subst IsValid e (add_states-IsValid f n v), subst IsSound e (add_states-IsSound f n sound).1)
built_lem (by_tr {f} {g} s tr b lt e) =
    let (v, sound) = built_lem b in
    (add_tr-IsValid f g s tr v lt e, add_tr-IsSound f g s tr sound e)
built_lem (by_no_trs {f} {g} s b e) =
    let (v, sound) = built_lem b in (delete_trs-IsValid f g s v e, delete_trs-IsSound f g s sound e)
built_lem (by_pop {f} {g} s trs b e) =
    let (v, sound) = built_lem b in
    let h = pop_trs-delete_trs f g s trs e in
    (delete_trs-IsValid f g s v h, delete_trs-IsSound f g s sound h)
built_lem (by_take {f} {g} s w b e) =
    let (v, sound) = built_lem b in
    let h = take_final-delete_final f g s w e in
    (delete_final-IsValid f g s v h, delete_final_weight-IsSound f g s sound h)
built_lem (by_del_states {f} {g} dstates b room e) =
    let (v, sound) = built_lem b in del_states-IsSound f g dstates v room sound e
built_lem (by_del_state {f} {g} s b room e) =
    let (v, sound) = built_lem b in del_state-IsSound f g s v room sound e
built_lem (by_no_states {f} {g} b e) =
    (subst IsValid e (del_all_states-IsValid f), subst IsSound e (new-IsSound f).1)
