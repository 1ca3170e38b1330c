-- ===== src/Lazy/Compute.antt =====
-- rustfst/src/algorithms/lazy/lazy_fst.rs: `compute_bounded`, which makes a machine in memory from one
-- that is computed on demand. Symbol tables are left out.
pub mod Rounds
pub mod Budgets
use rustfst.Base.{
  ℕ, zero, suc, ◌+◌, ◌-◌, ltb, leb, if◌then◌else◌, Bool, true, false, not, ◌≡◌, List, [], ◌∷◌, ◌++◌,
  length, get_elem?, set, replicate, Option, none, some, Result, ok, err, state_budget, tr_limit,
  ◌>>=◌,
}
use rustfst.Tr.{Tr}
use rustfst.Weights.{Semiring}
use rustfst.Fst.{VectorFst, num_states}
use rustfst.Fst.Mutate.{new, add_states, set_start, set_final, set_trs_unchecked, set_properties}
use rustfst.Lazy.Cache.{FstCache}
use rustfst.Lazy.LazyFst.{FstOp, LazyFst, start, final_weight, get_trs}

-- `usize::MAX` on 64 bits, and `saturating_add`.
abbrev pub usize_max : ℕ
usize_max = 18446744073709551615

abbrev pub saturating_add : ℕ → ℕ → ℕ
saturating_add a b = if leb (a + b) usize_max then a + b else usize_max

-- `num > bound` for a bound that may be missing.
abbrev pub over : Option ℕ → ℕ → Bool
over none n = false
over (some bound) n = ltb bound n

-- `visited_states[state]`
abbrev pub seen : List Bool → ℕ → Bool
seen visited state = elim (get_elem? visited state) [ none ↦ false | some b ↦ b ]

-- `visited_states.resize(nextstate + 1, false)` where it is shorter.
abbrev pub widened : List Bool → ℕ → List Bool
widened visited state =
    if leb (length visited) state
    then visited ++ replicate (state + 1 - length visited) false
    else visited

-- The count of transitions, which is kept only under a limit.
unfoldable pub count_trs : Option ℕ → ℕ → ℕ → Result ℕ
count_trs none num_trs n = ok num_trs
count_trs (some bound) num_trs n =
    if ltb bound (saturating_add num_trs n) then err tr_limit else ok (saturating_add num_trs n)

-- What the search keeps: the machine made so far, the states seen, those to visit, and how many have
-- been discovered.
pub record Search (W : Type 0) : Type 0 where
  pub fst_out : VectorFst W
  pub visited_states : List Bool
  pub queue : List ℕ
  pub num_discovered : ℕ

module _ {W : Type 0} where
  -- A new state is queued and counted, within the budget.
  unfoldable pub discover : Option ℕ → Search W → ℕ → Result (Search W)
  discover max_states search state =
      let visited = widened search.visited_states state in
      if seen visited state
      then ok (record search { visited_states = visited })
      else if over max_states (search.num_discovered + 1)
      then err state_budget
      else ok (record search {
        visited_states = set visited state true;
        queue = search.queue ++ state ∷ [];
        num_discovered = search.num_discovered + 1;
      })

  -- The loop over the transitions of a state.
  unfoldable pub discover_all : Option ℕ → Search W → List (Tr W) → Result (Search W)
  unfolding discover add_states
  discover_all max_states search [] = ok search
  discover_all max_states search (tr ∷ trs) = discover max_states search tr.nextstate >>= λ found.
      let n = num_states found.fst_out in
      discover_all max_states
        (record found {
          fst_out =
              if leb n tr.nextstate
              then add_states found.fst_out (tr.nextstate - n + 1)
              else found.fst_out;
        })
        trs

  -- The machine with one state, the start state.
  abbrev pub search_start : ℕ → VectorFst W → Search W
  search_start s fst_out = record {
    fst_out = fst_out;
    visited_states = set (replicate (s + 1) false) s true;
    queue = s ∷ [];
    num_discovered = 1;
  }

module _ {W : Type 0} ⦃sr : Semiring W⦄ where
  -- The transitions of a state and its final weight, written at the end of its round.
  unfoldable pub finish_state : Search W → ℕ → List (Tr W) → Option W → Result (VectorFst W)
  unfolding set_trs_unchecked set_final
  finish_state search s trs none = ok (set_trs_unchecked search.fst_out s trs)
  finish_state search s trs (some w) = set_final (set_trs_unchecked search.fst_out s trs) s w

module _ {W : Type 0} ⦃sr : Semiring W⦄ (o : FstOp W) (c : FstCache W) where
  -- One round of the search, at the state that has been taken from the queue.
  unfoldable pub visit_state :
      Option ℕ → Option ℕ → LazyFst o c → Search W → ℕ → ℕ → Result (LazyFst o c × Search W × ℕ)
  unfolding get_trs final_weight count_trs discover_all finish_state
  visit_state max_states max_trs fst search num_trs s = get_trs o c fst s >>= λ (trs, fst1).
      count_trs max_trs num_trs (length trs) >>= λ num_trs'.
      discover_all max_states search trs >>= λ search1.
      final_weight o c fst1 s >>= λ (weight, fst2). finish_state search1 s trs weight >>= λ fst_out.
      ok (fst2, record search1 { fst_out = fst_out }, num_trs')

  -- The search, with fuel for its rounds.
  unfoldable pub search_states :
      ℕ
      → Option ℕ
      → Option ℕ
      → LazyFst o c
      → Search W
      → ℕ
      → Option (Result (LazyFst o c × VectorFst W))
  unfolding visit_state
  search_states zero max_states max_trs fst search num_trs = none
  search_states (suc fuel) max_states max_trs fst search num_trs = elim search.queue [
    | [] ↦ some (ok (fst, search.fst_out))
    | s ∷ queue ↦
        elim (visit_state max_states max_trs fst (record search { queue = queue }) num_trs s) [
          | err e ↦ some (err e)
          | ok (fst', search', num_trs') ↦
              search_states fuel max_states max_trs fst' search' num_trs'
        ]
  ]

  unfoldable pub compute_bounded :
      ℕ → Option ℕ → Option ℕ → LazyFst o c → Option (Result (VectorFst W))
  unfolding start add_states set_start search_states set_properties
  compute_bounded fuel max_states max_trs fst = elim (start o c fst) [
    | err e ↦ some (err e)
    | ok (none, _) ↦ some (ok new)
    | ok (some s, fst1) ↦ elim (set_start {W = W} (add_states new (s + 1)) s) [
      | err e ↦ some (err e)
      | ok fst_out ↦ elim (search_states fuel max_states max_trs fst1 (search_start s fst_out) 0) [
        | none ↦ none
        | some (err e) ↦ some (err e)
        | some (ok (fst2, made)) ↦ some (ok (set_properties made (o.properties fst2.op)))
      ]
    ]
  ]
