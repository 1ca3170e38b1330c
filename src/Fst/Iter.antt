-- ===== src/Fst/Iter.antt =====
-- rustfst/src/trs_iter_mut.rs: changing the transitions of a state in place. The iterator borrows four
-- fields of a machine; `with_iter` lends them and writes them back.
pub mod Replace
pub mod Sound
use rustfst.Base.{
  ℕ, suc, zero, ◌+◌, usize_pred, ◌==◌, if◌then◌else◌, Bool, not, ◌&&◌, List, [], ◌∷◌, get_elem?,
  set, length, Option, none, some, Result, ok, err, iteration_over,
}
use rustfst.Tr.{Tr, eps_label}
use rustfst.Weights.{Semiring, is_weighted}
use rustfst.Props.{
  FstProperties, ◌∪◌, ◌∩◌, mask, add_if, remove_if, turn, acceptor, not_acceptor, epsilons,
  no_epsilons, i_epsilons, no_i_epsilons, o_epsilons, no_o_epsilons, weighted, unweighted,
}
use rustfst.Props.Masks.{set_arc_properties}
use rustfst.Fst.{VectorFstState, VectorFst, on_state}
use rustfst.Fst.Mutate.{on_state_unchecked}

pub record TrsIterMut {ℓ} (W : Type ℓ) : Type ℓ where
  pub trs : List (Tr W)
  pub properties : FstProperties
  pub niepsilons : ℕ
  pub noepsilons : ℕ

-- Each `let` is one `if` of the source.
unfoldable pub update_properties_labels : FstProperties → ℕ → ℕ → ℕ → ℕ → FstProperties
update_properties_labels p old_i old_o new_i new_o =
    let p1 = remove_if (not (old_i == old_o)) (mask (not_acceptor ∷ [])) p in
    let p2 = remove_if (old_i == eps_label) (mask (i_epsilons ∷ [])) p1 in
    let p3 = remove_if ((old_i == eps_label) && (old_o == eps_label)) (mask (epsilons ∷ [])) p2 in
    let p4 = remove_if (old_o == eps_label) (mask (o_epsilons ∷ [])) p3 in
    let p5 = turn (not (new_i == new_o)) not_acceptor acceptor p4 in
    let p6 = turn (new_i == eps_label) i_epsilons no_i_epsilons p5 in
    let p7 = turn ((new_i == eps_label) && (new_o == eps_label)) epsilons no_epsilons p6 in
    turn (new_o == eps_label) o_epsilons no_o_epsilons p7

unfoldable pub keep_only_relevant_properties : FstProperties → FstProperties
keep_only_relevant_properties p =
    (set_arc_properties
      ∪ mask (
          acceptor ∷ not_acceptor ∷ epsilons ∷ no_epsilons ∷ i_epsilons ∷ no_i_epsilons ∷ o_epsilons
          ∷ no_o_epsilons ∷ weighted ∷ unweighted ∷ []))
    ∩ p

unfoldable pub compute_new_properties_labels : FstProperties → ℕ → ℕ → ℕ → ℕ → FstProperties
unfolding update_properties_labels keep_only_relevant_properties
compute_new_properties_labels p old_i old_o new_i new_o =
    keep_only_relevant_properties (update_properties_labels p old_i old_o new_i new_o)

-- `updt_nieps!` and `updt_noeps!`.
abbrev pub updated_epsilons : ℕ → ℕ → ℕ → ℕ
updated_epsilons count old_label new_label =
    let less = if old_label == eps_label then usize_pred count else count in
    if new_label == eps_label then less + 1 else less

module _ {ℓ} {W : Type ℓ} where
  -- `get_mut(idx).ok_or_else(…)?`, and what is done with the transition.
  abbrev pub on_tr : TrsIterMut W → ℕ → (Tr W → TrsIterMut W) → Result (TrsIterMut W)
  on_tr it idx change = elim (get_elem? it.trs idx) [
    | none ↦ err iteration_over
    | some old ↦ ok (change old)
  ]

  -- `get_unchecked_mut`; out of range nothing changes here.
  abbrev pub on_tr_unchecked : TrsIterMut W → ℕ → (Tr W → TrsIterMut W) → TrsIterMut W
  on_tr_unchecked it idx change = elim (get_elem? it.trs idx) [ none ↦ it | some old ↦ change old ]

  abbrev pub put_labels : TrsIterMut W → ℕ → ℕ → ℕ → Tr W → TrsIterMut W
  put_labels it idx i o old = record it {
    trs = set it.trs idx (record old { ilabel = i; olabel = o });
    properties = compute_new_properties_labels it.properties old.ilabel old.olabel i o;
    niepsilons = updated_epsilons it.niepsilons old.ilabel i;
    noepsilons = updated_epsilons it.noepsilons old.olabel o;
  }

  abbrev pub put_ilabel : TrsIterMut W → ℕ → ℕ → Tr W → TrsIterMut W
  put_ilabel it idx i old = record it {
    trs = set it.trs idx (record old { ilabel = i });
    properties = compute_new_properties_labels it.properties old.ilabel old.olabel i old.olabel;
    niepsilons = updated_epsilons it.niepsilons old.ilabel i;
  }

  abbrev pub put_olabel : TrsIterMut W → ℕ → ℕ → Tr W → TrsIterMut W
  put_olabel it idx o old = record it {
    trs = set it.trs idx (record old { olabel = o });
    properties = compute_new_properties_labels it.properties old.ilabel old.olabel old.ilabel o;
    noepsilons = updated_epsilons it.noepsilons old.olabel o;
  }

  abbrev pub put_nextstate : TrsIterMut W → ℕ → ℕ → Tr W → TrsIterMut W
  put_nextstate it idx n old = record it {
    trs = set it.trs idx (record old { nextstate = n });
    properties = keep_only_relevant_properties it.properties;
  }

  unfoldable pub set_labels_unchecked : TrsIterMut W → ℕ → ℕ → ℕ → TrsIterMut W
  set_labels_unchecked it idx i o = on_tr_unchecked it idx (put_labels it idx i o)

  unfoldable pub set_ilabel : TrsIterMut W → ℕ → ℕ → Result (TrsIterMut W)
  set_ilabel it idx i = on_tr it idx (put_ilabel it idx i)

  unfoldable pub set_ilabel_unchecked : TrsIterMut W → ℕ → ℕ → TrsIterMut W
  set_ilabel_unchecked it idx i = on_tr_unchecked it idx (put_ilabel it idx i)

  unfoldable pub set_olabel : TrsIterMut W → ℕ → ℕ → Result (TrsIterMut W)
  set_olabel it idx o = on_tr it idx (put_olabel it idx o)

  unfoldable pub set_olabel_unchecked : TrsIterMut W → ℕ → ℕ → TrsIterMut W
  set_olabel_unchecked it idx o = on_tr_unchecked it idx (put_olabel it idx o)

  -- The properties fall also when the iteration is over.
  unfoldable pub set_nextstate : TrsIterMut W → ℕ → ℕ → TrsIterMut W × Result (Unit {0})
  set_nextstate it idx n = elim (get_elem? it.trs idx) [
    | none ↦
        (record it { properties = keep_only_relevant_properties it.properties }, err iteration_over)
    | some old ↦ (put_nextstate it idx n old, ok tt)
  ]

  unfoldable pub set_nextstate_unchecked : TrsIterMut W → ℕ → ℕ → TrsIterMut W
  set_nextstate_unchecked it idx n = on_tr_unchecked it idx (put_nextstate it idx n)

  -- The iterator over the state's transitions, what is done with it, and the fields written back.
  abbrev pub write_back :
      VectorFst W → ℕ → (TrsIterMut W → TrsIterMut W) → VectorFstState W → VectorFst W
  write_back f s use_iter st =
      let it = use_iter (record {
        trs = st.trs;
        properties = f.properties;
        niepsilons = st.niepsilons;
        noepsilons = st.noepsilons;
      }) in
      record f {
        states =
            set f.states s
              (record st { trs = it.trs; niepsilons = it.niepsilons; noepsilons = it.noepsilons });
        properties = it.properties;
      }

  unfoldable pub with_iter : VectorFst W → ℕ → (TrsIterMut W → TrsIterMut W) → VectorFst W
  with_iter f s use_iter = on_state_unchecked f s (write_back f s use_iter)

  unfoldable pub tr_iter_mut :
      VectorFst W → ℕ → (TrsIterMut W → TrsIterMut W) → Result (VectorFst W)
  tr_iter_mut f s use_iter = on_state f s (write_back f s use_iter)

module _ {ℓ} {W : Type ℓ} ⦃sr : Semiring W⦄ where
  unfoldable pub update_properties_weights : FstProperties → W → W → FstProperties
  update_properties_weights p old new =
      let p1 = remove_if (is_weighted old) (mask (weighted ∷ [])) p in
      turn (is_weighted new) weighted unweighted p1

  unfoldable pub compute_new_properties_weights : FstProperties → W → W → FstProperties
  unfolding update_properties_weights keep_only_relevant_properties
  compute_new_properties_weights p old new =
      keep_only_relevant_properties (update_properties_weights p old new)

  unfoldable pub compute_new_properties_all : FstProperties → Tr W → Tr W → FstProperties
  unfolding update_properties_labels update_properties_weights keep_only_relevant_properties
  compute_new_properties_all p old new =
      let p1 = update_properties_labels p old.ilabel old.olabel new.ilabel new.olabel in
      keep_only_relevant_properties (update_properties_weights p1 old.weight new.weight)

  abbrev pub put_tr : TrsIterMut W → ℕ → Tr W → Tr W → TrsIterMut W
  put_tr it idx tr old = record it {
    trs = set it.trs idx tr;
    properties = compute_new_properties_all it.properties old tr;
    niepsilons = updated_epsilons it.niepsilons old.ilabel tr.ilabel;
    noepsilons = updated_epsilons it.noepsilons old.olabel tr.olabel;
  }

  abbrev pub put_weight : TrsIterMut W → ℕ → W → Tr W → TrsIterMut W
  put_weight it idx w old = record it {
    trs = set it.trs idx (record old { weight = w });
    properties = compute_new_properties_weights it.properties old.weight w;
  }

  unfoldable pub set_tr : TrsIterMut W → ℕ → Tr W → Result (TrsIterMut W)
  set_tr it idx tr = on_tr it idx (put_tr it idx tr)

  unfoldable pub set_tr_unchecked : TrsIterMut W → ℕ → Tr W → TrsIterMut W
  set_tr_unchecked it idx tr = on_tr_unchecked it idx (put_tr it idx tr)

  unfoldable pub set_weight : TrsIterMut W → ℕ → W → Result (TrsIterMut W)
  set_weight it idx w = on_tr it idx (put_weight it idx w)

  unfoldable pub set_weight_unchecked : TrsIterMut W → ℕ → W → TrsIterMut W
  set_weight_unchecked it idx w = on_tr_unchecked it idx (put_weight it idx w)
