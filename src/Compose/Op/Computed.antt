-- ===== src/Compose/Op/Computed.antt =====
-- compose_fst_op.rs: `compute_trs`, with sorted matchers and any filter.
use rustfst.Base.{
  ℕ, ◌+◌, ◌^◌, ◌<◌, ◌≡◌, sym, ap, subst, ◌∙◌, Bool, true, false, List, [], length, some, none,
  Result, ok, err, panic, ◌>>=◌, >>=-eq-ok, arith, if◌then◌else◌, ok-inj,
}
use rustfst.Tr.{Tr}
use rustfst.Weights.{Semiring}
use rustfst.Fst.{VectorFst, trs_of, get_trs}
use rustfst.Lazy.StateTable.{Equality, find_tuple}
use rustfst.Lazy.StateTable.Numbers.{IsTable}
use rustfst.Compose.{ComposeFilter}
use rustfst.Compose.Matcher.{
  IteratorSortedMatcher, match_input, match_output, IterItemMatcher, LowerBoundBy, IsLowerBoundBy,
  iterator_new, items,
}
use rustfst.Compose.Matcher.Sorted.{IsSorted, found, sorted_matcher_lem}
use rustfst.Compose.Matcher.Sorted as Sorted
use rustfst.Compose.Op.{
  ComposeStateTuple, Expansion, Matcher, Table, ComposeFstOp, sorted_matcher, compute_trs,
  side_matched, ordered_expand, fst1_matcher2, fst2_matcher1,
}
use rustfst.Compose.Op.Expands.{Adds, Expands-iff}
use rustfst.Compose.Op.Pairs.{other, matched_type}
use rustfst.Compose.Op.Trs.{
  matched, matcher, Finds, IsPair, IsReal, ordered_Expands, pairs_input, pairs_output,
  get_trs-trs_of,
}

module _ {W : Type 0} ⦃sr : Semiring W⦄ (lower_bound_by : LowerBoundBy (Tr W))
    (spec : IsLowerBoundBy lower_bound_by) where
  loop_result :
      (made : Result (IteratorSortedMatcher W)) (fuel : ℕ) (expected it : List (IterItemMatcher W))
      → Sorted.Finds made fuel expected
      → made >>= (λ iter. elim (items fuel iter) [ none ↦ err panic | some seen ↦ seen ]) ≡ ok it
      → it ≡ expected
  loop_result made fuel expected it (iter, m, i) h = ground (arith, m, i, h)

  -- On a machine sorted by the matched side, a sorted matcher finds what a scan finds.
  sorted_finds :
      (input : Bool) (f : VectorFst W) (s label : ℕ) (it : List (IterItemMatcher W))
      → IsSorted (other input) (trs_of f s)
      → (sorted_matcher lower_bound_by f (matched_type input)).iter s label ≡ ok it
      → it ≡ found (other input) label (trs_of f s)
  unfolding sorted_matcher
  sorted_finds true f s label it sorted h =
      let (trs, e1, e2) = >>=-eq-ok (get_trs f s) _ h in
      let same = get_trs-trs_of f s trs e1 in
      let sorted' = subst (λ (l : List (Tr W)). IsSorted (λ t. t.ilabel) l) (sym same) sorted in
      let finds =
        (sorted_matcher_lem lower_bound_by spec trs label (length trs + 2) (omega arith)).0
          sorted' in
      loop_result (iterator_new lower_bound_by trs label match_input) (length trs + 2)
        (found (λ t. t.ilabel) label trs) it finds e2
      ∙ ap (λ l. found (λ t. t.ilabel) label l) same
  sorted_finds false f s label it sorted h =
      let (trs, e1, e2) = >>=-eq-ok (get_trs f s) _ h in
      let same = get_trs-trs_of f s trs e1 in
      let sorted' = subst (λ (l : List (Tr W)). IsSorted (λ t. t.olabel) l) (sym same) sorted in
      let finds =
        (sorted_matcher_lem lower_bound_by spec trs label (length trs + 2) (omega arith)).1
          sorted' in
      loop_result (iterator_new lower_bound_by trs label match_output) (length trs + 2)
        (found (λ t. t.olabel) label trs) it finds e2
      ∙ ap (λ l. found (λ t. t.olabel) label l) same

  -- Two machines with sorted matchers, the one that is matched sorted by that side.
  pub record IsReady (input : Bool) (op : ComposeFstOp W) : Type 0 where
    pub matches :
        matcher input op ≡ sorted_matcher lower_bound_by (matched input op) (matched_type input)
    pub sorted : (s : ℕ) → IsSorted (other input) (trs_of (matched input op) s)

  ready-Finds : (input : Bool) (op : ComposeFstOp W) → IsReady input op → Finds input op
  ready-Finds input op r s label it h =
      sorted_finds input (matched input op) s label it (r.sorted s)
        (subst (λ (m : Matcher W). m.iter s label ≡ ok it) r.matches h)

  -- The expansion of a tuple.
  expand_at :
      (cf : ComposeFilter W) ⦃eq : Equality (ComposeStateTuple cf.Fs)⦄
      → ComposeFstOp W
      → Table cf
      → ComposeStateTuple cf.Fs
      → Result (Expansion cf)
  expand_at cf op table tuple = cf.set_state cf.build tuple.s1 tuple.s2 tuple.fs >>= λ filter.
      side_matched cf op tuple.s1 tuple.s2 >>= λ input.
      if input
      then ordered_expand cf op tuple.s2 tuple.s1 true filter fst1_matcher2 table
      else ordered_expand cf op tuple.s1 tuple.s2 false filter fst2_matcher1 table

  expand_at-Adds :
      (cf : ComposeFilter W) ⦃eq : Equality (ComposeStateTuple cf.Fs)⦄ (op : ComposeFstOp W)
      (table : Table cf) (tuple : ComposeStateTuple cf.Fs) (input : Bool) (result : Expansion cf)
      → IsTable table
      → side_matched cf op tuple.s1 tuple.s2 ≡ ok input
      → IsReady input op
      → IsReal input op (if input then tuple.s1 else tuple.s2)
      → expand_at cf op table tuple ≡ ok result
      → length result.1.id_to_tuple < 2 ^ 32
      → (filter : cf.Filter) × (cf.set_state cf.build tuple.s1 tuple.s2 tuple.fs ≡ ok filter)
        × Adds cf filter (IsPair op tuple.s1 tuple.s2) ([], table) result
  unfolding expand_at
  expand_at-Adds cf op table tuple true result v side ready real h small =
      let (filter, e1, e2) = >>=-eq-ok (cf.set_state cf.build tuple.s1 tuple.s2 tuple.fs) _ h in
      let (chosen, e3, e4) = >>=-eq-ok (side_matched cf op tuple.s1 tuple.s2) _ e2 in
      let called : ordered_expand cf op tuple.s2 tuple.s1 true filter fst1_matcher2 table
          ≡ ok result =
        ground (arith, e4, ok-inj (sym e3 ∙ side)) in
      let expands =
        ordered_Expands cf filter op true (ready-Finds true op ready) tuple.s2 tuple.s1 table result
          called in
      (
        filter,
        e1,
        (Expands-iff cf filter _ _ ([], table) result
              (pairs_input cf filter op tuple.s1 tuple.s2 real) expands).adds
            v small,
      )
  expand_at-Adds cf op table tuple false result v side ready real h small =
      let (filter, e1, e2) = >>=-eq-ok (cf.set_state cf.build tuple.s1 tuple.s2 tuple.fs) _ h in
      let (chosen, e3, e4) = >>=-eq-ok (side_matched cf op tuple.s1 tuple.s2) _ e2 in
      let called : ordered_expand cf op tuple.s1 tuple.s2 false filter fst2_matcher1 table
          ≡ ok result =
        ground (arith, e4, ok-inj (sym e3 ∙ side)) in
      let expands =
        ordered_Expands cf filter op false (ready-Finds false op ready) tuple.s1 tuple.s2 table
          result called in
      (
        filter,
        e1,
        (Expands-iff cf filter _ _ ([], table) result
              (pairs_output cf filter op tuple.s1 tuple.s2 real) expands).adds
            v small,
      )

  -- A state of the composition stands for its tuple. Where `compute_trs` succeeds on it, with a
  -- sorted matcher on the side that it chooses to match, real labels on the other and fewer than
  -- 2^32 states, the transitions it gives are exactly those of the pairs that a composition joins and
  -- the filter allows: each has the input of the first, the output of the second and the product of
  -- both weights, and leads to the state numbered for the filter's answer and both targets. The table
  -- stays right, and keeps the numbers it had. `lower_bound_by` is assumed to be a lower bound.
  pub compute_trs_lem :
      (cf : ComposeFilter W) ⦃eq : Equality (ComposeStateTuple cf.Fs)⦄ (op : ComposeFstOp W)
      (table : Table cf) (state : ℕ) (tuple : ComposeStateTuple cf.Fs) (input : Bool)
      (result : Expansion cf)
      → IsTable table
      → find_tuple table state ≡ ok tuple
      → side_matched cf op tuple.s1 tuple.s2 ≡ ok input
      → IsReady input op
      → IsReal input op (if input then tuple.s1 else tuple.s2)
      → compute_trs cf op state table ≡ ok result
      → length result.1.id_to_tuple < 2 ^ 32
      → (filter : cf.Filter) × (cf.set_state cf.build tuple.s1 tuple.s2 tuple.fs ≡ ok filter)
        × Adds cf filter (IsPair op tuple.s1 tuple.s2) ([], table) result
  unfolding compute_trs expand_at
  compute_trs_lem cf op table state tuple input result v at side ready real h small =
      let (tuple', e1, e2) = >>=-eq-ok (find_tuple table state) (expand_at cf op table) h in
      let same : tuple' ≡ tuple = ok-inj (sym e1 ∙ at) in
      expand_at-Adds cf op table tuple input result v side ready real
        (ap (expand_at cf op table) (sym same) ∙ e2) small
