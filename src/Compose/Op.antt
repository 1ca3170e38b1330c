-- ===== src/Compose/Op.antt =====
-- rustfst/src/algorithms/compose/compose_fst_op.rs: the transitions and the final weight of a state of
-- the composition, computed when they are asked for. Both operands are vector machines.
pub mod Expands
pub mod Pairs
pub mod Trs
pub mod Computed
pub mod OnDemand
pub mod Stable
use rustfst.Base.{
  ℕ, ◌+◌, ◌==◌, leb, if◌then◌else◌, Bool, true, false, ◌&&◌, List, [], ◌∷◌, ◌++◌, length, Option,
  none, some, Result, ok, err, panic, unsupported, ◌>>=◌,
}
use rustfst.Tr.{Tr}
use rustfst.Weights.{Semiring, is_zero}
use rustfst.Fst.{VectorFst, get_trs, num_trs, final_weight}
use rustfst.Props.{FstProperties}
use rustfst.Lazy.LazyFst.{FstOp}
use rustfst.Lazy.StateTable.{Equality, BiHashMap, get_id_or_insert, find_tuple}
use rustfst.Compose.{ComposeFilter, eps_loop_input, eps_loop_output}
use rustfst.Compose.Matcher.{
  MatchType, match_input, match_output, IterItemMatcher, LowerBoundBy, iterator_new, items, into_tr,
}

pub record ComposeStateTuple (Fs : Type 0) : Type 0 where
  pub fs : Fs
  pub s1 : ℕ
  pub s2 : ℕ

-- The trait `Matcher` as far as an expansion uses it. `iter` gives the items that a loop over the
-- iterator sees.
pub record Matcher (W : Type 0) : Type 0 where
  pub iter : ℕ → ℕ → Result (List (IterItemMatcher W))
  pub final_weight : ℕ → Result (Option W)
  pub priority : ℕ → Result ℕ

pub data Selector : Type 0 where
  fst1_matcher2 fst2_matcher1 : Selector

-- `REQUIRE_PRIORITY`, `usize::MAX` on 64 bits.
abbrev pub require_priority : ℕ
require_priority = 18446744073709551615

-- The implementation of the trait for `SortedMatcher`. The rounds given to its iterator are enough
-- on sorted transitions.
unfoldable pub sorted_matcher :
    {W : Type 0} → LowerBoundBy (Tr W) → VectorFst W → MatchType → Matcher W
unfolding iterator_new items final_weight num_trs get_trs
sorted_matcher lower_bound_by fst match_type = record {
  iter = λ state label. get_trs fst state >>= λ trs.
      iterator_new lower_bound_by trs label match_type >>= λ it. elim (items (length trs + 2) it) [
        | none ↦ err panic
        | some seen ↦ seen
      ];
  final_weight = final_weight fst;
  priority = num_trs fst;
}

pub record ComposeFstOp (W : Type 0) : Type 0 where
  pub matcher1 : Matcher W
  pub matcher2 : Matcher W
  pub match_type : MatchType
  pub properties : FstProperties
  pub fst1 : VectorFst W
  pub fst2 : VectorFst W
  pub start : Option ℕ

module _ {W : Type 0} ⦃sr : Semiring W⦄ (cf : ComposeFilter W)
    ⦃eq : Equality (ComposeStateTuple cf.Fs)⦄ where
  abbrev pub Table : Type 0
  Table = BiHashMap (ComposeStateTuple cf.Fs)

  -- The vector of transitions that an expansion fills, and the table of states.
  abbrev pub Expansion : Type 0
  Expansion = List (Tr W) × Table

  unfoldable pub side_matched : ComposeFstOp W → ℕ → ℕ → Result Bool
  side_matched op s1 s2 = elim op.match_type [
    | match_input ↦ ok true
    | match_output ↦ ok false
    | _ ↦ op.matcher1.priority s1 >>= λ priority1. op.matcher2.priority s2 >>= λ priority2.
        if (priority1 == require_priority) && (priority2 == require_priority)
        then err unsupported
        else if priority1 == require_priority
        then ok false
        else if priority2 == require_priority
        then ok true
        else ok (leb priority1 priority2)
  ]

  unfoldable pub add_tr : Tr W → Tr W → cf.Fs → Table → Result (Tr W × Table)
  unfolding get_id_or_insert
  add_tr arc1 arc2 fs table =
      let tuple : ComposeStateTuple cf.Fs = record {
        fs = fs;
        s1 = arc1.nextstate;
        s2 = arc2.nextstate;
      } in
      sr.times arc1.weight arc2.weight >>= λ weight.
      let answer = get_id_or_insert table tuple in
      ok (
        record {
          ilabel = arc1.ilabel;
          olabel = arc2.olabel;
          weight = weight;
          nextstate = answer.0;
        },
        answer.1,
      )

  -- The filter is asked about a pair, and the transition pushed if it allows it.
  unfoldable pub push_tr : cf.Filter → Tr W → Tr W → Expansion → Result Expansion
  unfolding add_tr
  push_tr filter arc1 arc2 (trs, table) =
      let fs = cf.filter_tr filter arc1 arc2 in
      if cf.equals fs cf.no_state
      then ok (trs, table)
      else add_tr arc1 arc2 fs table >>= λ (tr, table'). ok (trs ++ tr ∷ [], table')

  unfoldable pub match_tr_selected :
      ℕ → Tr W → Bool → cf.Filter → List (IterItemMatcher W) → Expansion → Result Expansion
  unfolding push_tr
  match_tr_selected sa tr input filter [] done = ok done
  match_tr_selected sa tr input filter (item ∷ it) done =
      into_tr item sa (if input then match_input else match_output) >>= λ arca.
      (if input then push_tr filter tr arca done else push_tr filter arca tr done) >>= λ done'.
      match_tr_selected sa tr input filter it done'

  unfoldable pub match_tr :
      ComposeFstOp W → ℕ → Tr W → Bool → cf.Filter → Selector → Expansion → Result Expansion
  unfolding match_tr_selected
  match_tr op sa tr input filter selector done =
      let label = if input then tr.olabel else tr.ilabel in
      elim selector [
        | fst2_matcher1 ↦
            op.matcher1.iter sa label >>= λ it. match_tr_selected sa tr input filter it done
        | fst1_matcher2 ↦
            op.matcher2.iter sa label >>= λ it. match_tr_selected sa tr input filter it done
      ]

  -- The loop over the transitions of the machine that is not matched.
  unfoldable pub match_trs :
      ComposeFstOp W → ℕ → List (Tr W) → Bool → cf.Filter → Selector → Expansion → Result Expansion
  unfolding match_tr
  match_trs op sa [] input filter selector done = ok done
  match_trs op sa (tr ∷ trs) input filter selector done =
      match_tr op sa tr input filter selector done >>= λ done'.
      match_trs op sa trs input filter selector done'

  unfoldable pub ordered_expand :
      ComposeFstOp W → ℕ → ℕ → Bool → cf.Filter → Selector → Table → Result Expansion
  unfolding match_tr match_trs get_trs
  ordered_expand op sa sb input filter selector table =
      let tr_loop = if input then eps_loop_output sb else eps_loop_input sb in
      match_tr op sa tr_loop input filter selector ([], table) >>= λ done.
      get_trs (elim selector [ fst1_matcher2 ↦ op.fst1 | fst2_matcher1 ↦ op.fst2 ]) sb >>= λ trs.
      match_trs op sa trs input filter selector done

  unfoldable pub compute_trs : ComposeFstOp W → ℕ → Table → Result Expansion
  unfolding find_tuple side_matched ordered_expand
  compute_trs op state table = find_tuple table state >>= λ tuple.
      cf.set_state cf.build tuple.s1 tuple.s2 tuple.fs >>= λ filter.
      side_matched op tuple.s1 tuple.s2 >>= λ input.
      if input
      then ordered_expand op tuple.s2 tuple.s1 true filter fst1_matcher2 table
      else ordered_expand op tuple.s1 tuple.s2 false filter fst2_matcher1 table

  unfoldable pub compute_final_weight : ComposeFstOp W → ℕ → Table → Result (Option W)
  unfolding find_tuple is_zero
  compute_final_weight op state table = find_tuple table state >>= λ tuple.
      op.matcher1.final_weight tuple.s1 >>= λ final1. elim final1 [
        | none ↦ ok none
        | some w1 ↦ op.matcher2.final_weight tuple.s2 >>= λ final2. elim final2 [
          | none ↦ ok none
          | some w2 ↦ cf.set_state cf.build tuple.s1 tuple.s2 tuple.fs >>= λ filter.
              sr.times w1 w2 >>= λ w. ok (if is_zero w then none else some w)
        ]
      ]

  -- The implementation of the trait `FstOp`, over a state that is the table.
  abbrev pub compose_fst_op : ComposeFstOp W → FstOp W
  compose_fst_op op = record {
    State = Table;
    compute_start = λ table. ok (op.start, table);
    compute_trs = λ table state. compute_trs op state table;
    compute_final_weight =
        λ table state. compute_final_weight op state table >>= λ w. ok (w, table);
    properties = λ table. op.properties;
  }
