-- ===== src/Compose/Matcher.antt =====
-- rustfst/src/algorithms/compose/matchers/{mod,sorted_matcher}.rs: the transitions of a state that
-- carry a label, found in a sorted vector.
pub mod Sorted
use Prim.Native.Nat.{compare, Ordering}
use rustfst.Base.{
  ℕ, zero, suc, ◌+◌, ◌≤◌, ◌<◌, ◌≡◌, ◌≢◌, ◌==◌, if◌then◌else◌, Bool, true, false, List, [], ◌∷◌,
  length, get_elem?, Option, none, some, Result, ok, err, panic, unsupported, ◌>>=◌,
}
use rustfst.Tr.{Tr, eps_label}
use rustfst.Weights.{Semiring}
use rustfst.Fst.{VectorFst, get_trs, num_trs}
use rustfst.Fst.{final_weight}
use rustfst.Compose.{no_label, eps_loop_input, eps_loop_output}

pub data MatchType : Type 0 where
  match_input match_output match_both match_none match_unknown : MatchType

pub data IterItemMatcher (W : Type 0) : Type 0 where
  tr_item : Tr W → IterItemMatcher W
  eps_loop_item : IterItemMatcher W

pub record IteratorSortedMatcher (W : Type 0) : Type 0 where
  pub trs : List (Tr W)
  pub match_label : ℕ
  pub pos : ℕ
  pub current_loop : Bool
  pub match_type : MatchType

-- The type of `lower_bound_by` of the crate superslice.
abbrev pub LowerBoundBy : Type 0 → Type 0
LowerBoundBy A = List A → (A → Ordering) → ℕ

-- No element that is less stands behind one that is not.
abbrev pub IsPartitioned : {A : Type 0} → List A → (A → Ordering) → Type 0
IsPartitioned {A} l test =
    (j k : ℕ) (x y : A)
    → j ≤ k
    → get_elem? l j ≡ some x
    → get_elem? l k ≡ some y
    → test y ≡ Ordering.lt
    → test x ≡ Ordering.lt

-- What superslice documents of it: on a slice whose elements that are less come first, it is the
-- number of those.
pub record IsLowerBoundBy {A : Type 0} (lower_bound_by : LowerBoundBy A) : Type 0 where
  pub before :
      (l : List A) (test : A → Ordering)
      → IsPartitioned l test
      → (k : ℕ) (x : A) → k < lower_bound_by l test
      → get_elem? l k ≡ some x
      → test x ≡ Ordering.lt
  pub behind :
      (l : List A) (test : A → Ordering)
      → IsPartitioned l test
      → (k : ℕ) (x : A) → lower_bound_by l test ≤ k
      → get_elem? l k ≡ some x
      → test x ≢ Ordering.lt

module _ {W : Type 0} where
  -- `get_label`, which panics on the types that a sorted matcher does not have.
  abbrev pub get_label : MatchType → Tr W → Result ℕ
  get_label match_input tr = ok tr.ilabel
  get_label match_output tr = ok tr.olabel
  get_label _ tr = err panic

  -- `IteratorSortedMatcher::new`
  unfoldable pub iterator_new :
      LowerBoundBy (Tr W) → List (Tr W) → ℕ → MatchType → Result (IteratorSortedMatcher W)
  iterator_new lower_bound_by trs label match_type =
      let current_loop = label == eps_label in
      let match_label = if label == no_label then eps_label else label in
      let at : ℕ → Result (IteratorSortedMatcher W) = λ pos. ok (record {
        trs = trs;
        match_label = match_label;
        pos = pos;
        current_loop = current_loop;
        match_type = match_type;
      }) in
      if current_loop then at 0 else elim match_type [
        | match_input ↦ at (lower_bound_by trs (λ x. compare x.ilabel match_label))
        | match_output ↦ at (lower_bound_by trs (λ x. compare x.olabel match_label))
        | _ ↦ err panic
      ]

  unfoldable pub next :
      IteratorSortedMatcher W → Result (Option (IterItemMatcher W) × IteratorSortedMatcher W)
  next it =
      if it.current_loop
      then ok (some eps_loop_item, record it { current_loop = false })
      else elim (get_elem? it.trs it.pos) [
        | none ↦ ok (none, it)
        | some tr ↦ get_label it.match_type tr >>= λ label.
            if label == it.match_label
            then ok (some (tr_item tr), record it { pos = it.pos + 1 })
            else ok (none, it)
      ]

  -- What a loop over the iterator sees, with fuel for its rounds.
  unfoldable pub items : ℕ → IteratorSortedMatcher W → Option (Result (List (IterItemMatcher W)))
  unfolding next
  items zero it = none
  items (suc fuel) it = elim (next it) [
    | err e ↦ some (err e)
    | ok (none, _) ↦ some (ok [])
    | ok (some item, it') ↦ elim (items fuel it') [
      | none ↦ none
      | some (err e) ↦ some (err e)
      | some (ok rest) ↦ some (ok (item ∷ rest))
    ]
  ]

module _ {W : Type 0} ⦃sr : Semiring W⦄ where
  -- `eps_loop`, by the side that is matched, and `into_tr`.
  abbrev pub eps_loop : ℕ → MatchType → Result (Tr W)
  eps_loop state match_input = ok (eps_loop_input state)
  eps_loop state match_output = ok (eps_loop_output state)
  eps_loop state _ = err unsupported

  abbrev pub into_tr : IterItemMatcher W → ℕ → MatchType → Result (Tr W)
  into_tr (tr_item tr) state match_type = ok tr
  into_tr eps_loop_item state match_type = eps_loop state match_type
