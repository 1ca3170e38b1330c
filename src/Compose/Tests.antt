-- ===== src/Compose/Tests.antt =====
-- The composition at small machines.
use Prim.Native.Nat.{Ordering}
use mathlib.Core.List.Memᴰ.{eq_of_singleton}
use rustfst.Base.{
  ℕ, zero, suc, ◌<◌, ◌≤◌, ◌≡◌, ◌↔◌, ◌==◌, refl, Bool, true, false, ◌&&◌, List, [], ◌∷◌, map,
  get_elem?, some, ok, err, arith, inl, inr, ◌≢◌, ◌⊎◌, ap, sym, ◌∙◌, ◌>>=◌,
}
use rustfst.Tr.{Tr}
use rustfst.Weights.Plain.{boolean_weight}
use rustfst.Weights.{is_zero}
use rustfst.Fst.{VectorFst, final_weight, trs_of}
use rustfst.Fst.Mutate.{set_final, set_final_unchecked}
use rustfst.Fst.Valid.{IsValid, set_final-IsValid}
use rustfst.Fst.Tests.{with_loop, with_loop-IsValid, forth_tr, loop_tr}
use rustfst.Lazy.StateTable.{Equality, BiHashMap, new, get_id_or_insert, find_tuple, lookup}
use rustfst.Lazy.StateTable.Numbers.{IsTable, Numbers, new-IsTable, get_id_or_insert_lem}
use rustfst.Compose.Filters.{
  sequence_filter, is_final, SequenceState, sequence_build, sequence_set_state, sequence_filter_tr,
}
use rustfst.Compose.Matcher.{
  LowerBoundBy, IsPartitioned, IsLowerBoundBy, iterator_new, items, next, match_input, match_output,
}
use rustfst.Compose.Matcher.Sorted.{IsSorted, Finds, found, sorted_matcher_lem}
use rustfst.Compose.Op.{
  ComposeStateTuple, Expansion, ComposeFstOp, sorted_matcher, compute_trs, side_matched,
  compose_fst_op, compute_final_weight,
}
use rustfst.Lazy.Cache.SimpleVec.{simple_vec_cache, simple_vec_cache-IsFstCache, cleared, get_start}
use rustfst.Lazy.Cache.SimpleVec as Vec
use rustfst.Lazy.LazyFst.{FstOp, LazyFst, start, get_trs as lazy_trs, final_weight as lazy_final}
use rustfst.Lazy.LazyFst.Cached.{Agrees, Refines}
use rustfst.Compose.Op.Stable.{compose_fst_lem}
use rustfst.Compose.Op.Expands.{Adds}
use rustfst.Compose.Op.Trs.{IsPair, IsReal}
use rustfst.Compose.Op.Computed.{IsReady, compute_trs_lem}
use rustfst.Compose.Schedule.{Move, Accepts}
use rustfst.Compose.Schedule.Exists.{sequence_filter_lem}

-- `lower_bound_by` as a scan.
abbrev scan : LowerBoundBy (Tr Bool)
scan [] test = 0
scan (x ∷ l) test = let rest = scan l test in elim (test x) [ Ordering.lt ↦ suc rest | _ ↦ 0 ]

scan-cons :
    (y : Tr Bool) (l : List (Tr Bool)) (test : Tr Bool → Ordering)
    → ((test y ≡ Ordering.lt) × (scan (y ∷ l) test ≡ suc (scan l test)))
      ⊎ ((test y ≢ Ordering.lt) × (scan (y ∷ l) test ≡ 0))
scan-cons y l test = by (test y) refl
  where
    by :
        (o : Ordering)
        → test y ≡ o
        → ((test y ≡ Ordering.lt) × (scan (y ∷ l) test ≡ suc (scan l test)))
          ⊎ ((test y ≢ Ordering.lt) × (scan (y ∷ l) test ≡ 0))
    by Ordering.lt e = inl (e, ground (arith, e))
    by Ordering.eq e = inr (λ f. ground (arith, e, f), ground (arith, e))
    by Ordering.gt e = inr (λ f. ground (arith, e, f), ground (arith, e))

scan-before :
    (l : List (Tr Bool)) (test : Tr Bool → Ordering)
    → IsPartitioned l test
    → (k : ℕ) (x : Tr Bool) → k < scan l test
    → get_elem? l k ≡ some x
    → test x ≡ Ordering.lt
scan-before [] test p k x lt e = cc
scan-before (y ∷ l) test p zero x lt e = elim (scan-cons y l test) [
  | inl (h, s) ↦ let same : y ≡ x = ground arith in ap test (sym same) ∙ h
  | inr (h, s) ↦ absurd (omega (arith, lt, s))
]
scan-before (y ∷ l) test p (suc k) x lt e = elim (scan-cons y l test) [
  | inl (h, s) ↦
      scan-before l test (λ i j a b le. p (suc i) (suc j) a b (omega arith)) k x
        (omega (arith, lt, s)) e
  | inr (h, s) ↦ absurd (omega (arith, lt, s))
]

scan-behind :
    (l : List (Tr Bool)) (test : Tr Bool → Ordering)
    → IsPartitioned l test
    → (k : ℕ) (x : Tr Bool) → scan l test ≤ k
    → get_elem? l k ≡ some x
    → test x ≢ Ordering.lt
scan-behind [] test p k x le e = cc
scan-behind (y ∷ l) test p zero x le e = elim (scan-cons y l test) [
  | inl (h, s) ↦ absurd (omega (arith, le, s))
  | inr (h, s) ↦ let same : y ≡ x = ground arith in λ f. h (ap test same ∙ f)
]
scan-behind (y ∷ l) test p (suc k) x le e = elim (scan-cons y l test) [
  | inl (h, s) ↦
      scan-behind l test (λ i j a b le. p (suc i) (suc j) a b (omega arith)) k x
        (omega (arith, le, s)) e
  | inr (h, s) ↦ λ f. h (p 0 (suc k) y x (omega arith) refl e f)
]

scan-IsLowerBoundBy : IsLowerBoundBy scan
scan-IsLowerBoundBy = record { before = scan-before; behind = scan-behind }

abbrev ended : VectorFst Bool
unfolding with_loop set_final_unchecked
ended = set_final_unchecked ⦃sr = boolean_weight⦄ with_loop 1 true

ended-IsValid : IsValid ended
unfolding set_final with_loop set_final_unchecked
ended-IsValid =
    set_final-IsValid ⦃sr = boolean_weight⦄ with_loop ended 1 true with_loop-IsValid refl

abbrev six_tr : Tr Bool
six_tr = record { ilabel = 6; olabel = 9; weight = true; nextstate = 0 }

abbrev silent_tr : Tr Bool
silent_tr = record { ilabel = 0; olabel = 8; weight = true; nextstate = 0 }

sequence_filter_example :
    (ms : List Move) × Accepts ⦃sr = boolean_weight⦄
      (sequence_filter ⦃sr = boolean_weight⦄ ended)
      ms
      0
      0
      0
      (forth_tr ∷ loop_tr ∷ [])
      (silent_tr ∷ six_tr ∷ silent_tr ∷ [])
    × ((ms' : List Move)
        → Accepts ⦃sr = boolean_weight⦄
            (sequence_filter ⦃sr = boolean_weight⦄ ended)
            ms'
            0
            0
            0
            (forth_tr ∷ loop_tr ∷ [])
            (silent_tr ∷ six_tr ∷ silent_tr ∷ [])
        → ms' ≡ ms)
unfolding with_loop set_final_unchecked is_final final_weight is_zero
sequence_filter_example =
    sequence_filter_lem ⦃sr = boolean_weight⦄ ended ended-IsValid (forth_tr ∷ loop_tr ∷ [])
      (silent_tr ∷ six_tr ∷ silent_tr ∷ []) 0 0 ((0, refl), ((0, refl), refl))
      (λ e. omega (arith, e), (λ e. omega (arith, e), tt)) refl

sorted_matcher_example :
    (IsSorted (λ t. t.ilabel) (silent_tr ∷ forth_tr ∷ six_tr ∷ [])
      → Finds
          (iterator_new scan (silent_tr ∷ forth_tr ∷ six_tr ∷ []) 5 match_input)
          5
          (found (λ t. t.ilabel) 5 (silent_tr ∷ forth_tr ∷ six_tr ∷ [])))
    × (IsSorted (λ t. t.olabel) (silent_tr ∷ forth_tr ∷ six_tr ∷ [])
        → Finds
            (iterator_new scan (silent_tr ∷ forth_tr ∷ six_tr ∷ []) 5 match_output)
            5
            (found (λ t. t.olabel) 5 (silent_tr ∷ forth_tr ∷ six_tr ∷ [])))
sorted_matcher_example =
    sorted_matcher_lem scan scan-IsLowerBoundBy (silent_tr ∷ forth_tr ∷ six_tr ∷ []) 5 5
      (omega arith)

-- The transitions read 0, 5 and 6.
IsSorted-by_input : IsSorted (λ t. t.ilabel) (silent_tr ∷ forth_tr ∷ six_tr ∷ [])
IsSorted-by_input = (refl, (refl, tt))

abbrev tuple_equals : ComposeStateTuple ℕ → ComposeStateTuple ℕ → Bool
tuple_equals a b = (a.fs == b.fs) && (a.s1 == b.s1) && (a.s2 == b.s2)

tuple_equals_iff : (a b : ComposeStateTuple ℕ) → (tuple_equals a b ≡ true) ↔ (a ≡ b)
tuple_equals_iff a b = ground arith

abbrev tuple_equality : Equality (ComposeStateTuple ℕ)
tuple_equality = record { equals = tuple_equals; equals_iff = tuple_equals_iff }

abbrev start_tuple : ComposeStateTuple ℕ
start_tuple = record { fs = 0; s1 = 0; s2 = 0 }

abbrev start_table : BiHashMap (ComposeStateTuple ℕ)
start_table = record { tuple_to_id = (start_tuple, 0) ∷ []; id_to_tuple = start_tuple ∷ [] }

get_id_or_insert_example :
    Numbers ⦃eq = tuple_equality⦄ new start_tuple
      (get_id_or_insert ⦃eq = tuple_equality⦄ new start_tuple)
get_id_or_insert_example =
    get_id_or_insert_lem ⦃eq = tuple_equality⦄ new start_tuple (new-IsTable ⦃eq = tuple_equality⦄)
      (omega arith)

start_table-IsTable : IsTable ⦃eq = tuple_equality⦄ start_table
start_table-IsTable = record {
  listed = λ t id h. listed t id h;
  numbered = λ t id h. numbered t id h;
}
  where
    listed :
        (t : ComposeStateTuple ℕ) (id : ℕ)
        → lookup ⦃eq = tuple_equality⦄ ((start_tuple, 0) ∷ []) t ≡ some id
        → get_elem? (start_tuple ∷ []) id ≡ some t
    listed t id h = ground arith

    numbered :
        (t : ComposeStateTuple ℕ) (id : ℕ)
        → get_elem? (start_tuple ∷ []) id ≡ some t
        → lookup ⦃eq = tuple_equality⦄ ((start_tuple, 0) ∷ []) t ≡ some id
    numbered t zero h = ground arith
    numbered t (suc id) h = cc

abbrev reader : VectorFst Bool
reader = record {
  states =
      record {
        final_weight = some true;
        trs = silent_tr ∷ six_tr ∷ [];
        niepsilons = 1;
        noepsilons = 0;
      }
      ∷ [];
  start_state = some 0;
  properties = λ _. false;
}

abbrev op : ComposeFstOp Bool
op = record {
  matcher1 = sorted_matcher scan ended match_output;
  matcher2 = sorted_matcher scan reader match_input;
  match_type = match_input;
  properties = λ _. false;
  fst1 = ended;
  fst2 = reader;
  start = some 0;
}

op-IsReady : IsReady ⦃sr = boolean_weight⦄ scan scan-IsLowerBoundBy true op
op-IsReady = record { matches = refl; sorted = sorted }
  where
    sorted : (s : ℕ) → IsSorted (λ t. t.ilabel) (trs_of reader s)
    sorted zero = (refl, tt)
    sorted (suc s) = tt

abbrev expansion :
    Expansion ⦃sr = boolean_weight⦄
      (sequence_filter ⦃sr = boolean_weight⦄ ended)
      ⦃eq = tuple_equality⦄
unfolding compute_trs sorted_matcher with_loop set_final_unchecked is_final final_weight is_zero
    items next iterator_new sequence_set_state sequence_filter_tr
expansion =
    elim (compute_trs ⦃sr = boolean_weight⦄ (sequence_filter ⦃sr = boolean_weight⦄ ended)
      ⦃eq = tuple_equality⦄ op 0 start_table) [ err _ ↦ ([], start_table) | ok done ↦ done ]

-- The first machine waits at the silent transition, and both follow 6.
expansion-read : map (λ t. t.ilabel) expansion.0 ≡ 0 ∷ 5 ∷ []
unfolding compute_trs sorted_matcher with_loop set_final_unchecked is_final final_weight is_zero
    items next iterator_new sequence_set_state sequence_filter_tr
expansion-read = refl

op-IsReal : IsReal ⦃sr = boolean_weight⦄ true op 0
unfolding with_loop set_final_unchecked
op-IsReal t m =
    let same : t ≡ forth_tr = eq_of_singleton m in
    λ e. absurd (omega (arith, ap (λ (u : Tr Bool). u.olabel) same, e))

compute_trs_example :
    (filter : SequenceState) × (sequence_set_state ⦃sr = boolean_weight⦄ ended sequence_build 0 0 0
      ≡ ok filter)
    × Adds ⦃sr = boolean_weight⦄
        (sequence_filter ⦃sr = boolean_weight⦄ ended)
        ⦃eq = tuple_equality⦄
        filter
        (IsPair ⦃sr = boolean_weight⦄ op 0 0)
        ([], start_table)
        expansion
unfolding compute_trs sorted_matcher with_loop set_final_unchecked is_final final_weight is_zero
    items next iterator_new sequence_set_state sequence_filter_tr find_tuple side_matched
compute_trs_example =
    compute_trs_lem ⦃sr = boolean_weight⦄ scan scan-IsLowerBoundBy
      (sequence_filter ⦃sr = boolean_weight⦄ ended) ⦃eq = tuple_equality⦄ op start_table 0
      start_tuple true expansion start_table-IsTable refl refl op-IsReady op-IsReal refl
      (omega arith)

-- The same composition on demand.
abbrev on_demand : FstOp Bool
on_demand =
    compose_fst_op ⦃sr = boolean_weight⦄ (sequence_filter ⦃sr = boolean_weight⦄ ended)
      ⦃eq = tuple_equality⦄ op

abbrev unread : LazyFst on_demand simple_vec_cache
unread = record { cache = cleared; op = start_table }

unread-Agrees : Agrees on_demand simple_vec_cache unread
unfolding get_start Vec.get_trs Vec.get_final_weight
unread-Agrees = record {
  starts = λ x h. ground arith;
  trs = λ i l h. ground arith;
  finals = λ i w h. ground arith;
}

compose_fst_example :
    Refines on_demand simple_vec_cache
      (ok (some 0, start_table))
      (start on_demand simple_vec_cache unread)
    × ((i : ℕ)
        → Refines on_demand simple_vec_cache
            (compute_trs ⦃sr = boolean_weight⦄
              (sequence_filter ⦃sr = boolean_weight⦄ ended)
              ⦃eq = tuple_equality⦄
              op
              i
              start_table)
            (lazy_trs on_demand simple_vec_cache unread i))
    × ((i : ℕ)
        → Refines on_demand simple_vec_cache
            (compute_final_weight ⦃sr = boolean_weight⦄
                (sequence_filter ⦃sr = boolean_weight⦄ ended)
                ⦃eq = tuple_equality⦄
                op
                i
                start_table
              >>= λ w. ok (w, start_table))
            (lazy_final on_demand simple_vec_cache unread i))
compose_fst_example =
    compose_fst_lem ⦃sr = boolean_weight⦄ (sequence_filter ⦃sr = boolean_weight⦄ ended)
      ⦃eq = tuple_equality⦄ op simple_vec_cache simple_vec_cache-IsFstCache unread unread-Agrees
