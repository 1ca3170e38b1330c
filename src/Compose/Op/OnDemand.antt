-- ===== src/Compose/Op/OnDemand.antt =====
-- compose_fst_op.rs as an operation behind a cache: a composition that is computed on demand.
use rustfst.Base.{
  ℕ, ◌≡◌, inl, inr, ⊎_elim, refl, sym, ap, subst, ◌∙◌, Bool, true, false, List, [], ◌∷◌, ◌++◌,
  length, none, some, Result, ok, >>=-eq-ok, Option-cases, arith, if◌then◌else◌, u32, ok-inj,
}
use rustfst.Tr.{Tr}
use rustfst.Weights.{Semiring}
use rustfst.Fst.Access.{get_elem?-concat_old}
use rustfst.Lazy.StateTable.{Equality, BiHashMap, lookup, get_id_or_insert, find_tuple}
use rustfst.Lazy.StateTable.Numbers.{lookup_self, lookup-head, find_tuple-at}
use rustfst.Compose.Op.Expands.{tuple_of, made_tr, behind, push_tr-cases}
use rustfst.Compose.{ComposeFilter}
use rustfst.Compose.Matcher.{IterItemMatcher, into_tr, match_input, match_output}
use rustfst.Compose.Op.{
  ComposeStateTuple, Expansion, Table, ComposeFstOp, Selector, fst1_matcher2, fst2_matcher1, add_tr,
  push_tr, match_tr_selected, match_tr, match_trs,
}

module _ {T : Type 0} ⦃eq : Equality T⦄ where
  -- A later table has all numbers of an earlier one.
  pub record Extends (t u : BiHashMap T) : Type 0 where
    pub looks :
        (x : T) (id : ℕ) → lookup t.tuple_to_id x ≡ some id → lookup u.tuple_to_id x ≡ some id
    pub finds : (x : T) (id : ℕ) → find_tuple t id ≡ ok x → find_tuple u id ≡ ok x

  pub Extends-refl : (t : BiHashMap T) → Extends t t
  Extends-refl t = record { looks = λ x id h. h; finds = λ x id h. h }

  pub Extends-trans : (t u v : BiHashMap T) → Extends t u → Extends u v → Extends t v
  Extends-trans t u v a b = record {
    looks = λ x id h. b.looks x id (a.looks x id h);
    finds = λ x id h. b.finds x id (a.finds x id h);
  }

  -- The table has the number of the answer, and the numbers it had.
  abbrev Remembers : BiHashMap T → T → ℕ × BiHashMap T → Type 0
  Remembers t x answer = Extends t answer.1 × (lookup answer.1.tuple_to_id x ≡ some answer.0)

  added-Extends :
      (t : BiHashMap T) (x : T) (n : ℕ)
      → lookup t.tuple_to_id x ≡ none
      → Extends t
          (record { tuple_to_id = (x, n) ∷ t.tuple_to_id; id_to_tuple = t.id_to_tuple ++ x ∷ [] })
  added-Extends t x n e =
      let u : BiHashMap T = record {
        tuple_to_id = (x, n) ∷ t.tuple_to_id;
        id_to_tuple = t.id_to_tuple ++ x ∷ [];
      } in
      record {
        looks = λ y id h.
            lookup-head x y n t.tuple_to_id
              (λ q. absurd (ground (arith, h, e, ap (lookup t.tuple_to_id) q)))
            ∙ h;
        finds = λ y id h.
            (find_tuple-at u id y).1
              (get_elem?-concat_old t.id_to_tuple x id ((find_tuple-at t id y).0 h));
      }

  insert-Remembers : (t : BiHashMap T) (x : T) → Remembers t x (get_id_or_insert t x)
  unfolding get_id_or_insert
  insert-Remembers t x = elim (Option-cases (lookup t.tuple_to_id x)) [
    | inl e ↦
        let n = u32 (length t.id_to_tuple) in
        let u : BiHashMap T = record {
          tuple_to_id = (x, n) ∷ t.tuple_to_id;
          id_to_tuple = t.id_to_tuple ++ x ∷ [];
        } in
        let called : get_id_or_insert t x ≡ (n, u) = ground (arith, e) in
        subst (Remembers t x) (sym called) (added-Extends t x n e, lookup_self x n t.tuple_to_id)
    | inr (id, e) ↦
        let called : get_id_or_insert t x ≡ (id, t) = ground (arith, e) in
        subst (Remembers t x) (sym called) (Extends-refl t, e)
  ]

  -- Asked again, a later table gives the same number and does not change.
  known_id :
      (u : BiHashMap T) (x : T) (id : ℕ)
      → lookup u.tuple_to_id x ≡ some id
      → get_id_or_insert u x ≡ (id, u)
  unfolding get_id_or_insert
  known_id u x id h = ground (arith, h)

  insert_again :
      (t u : BiHashMap T) (x : T)
      → Extends (get_id_or_insert t x).1 u
      → get_id_or_insert u x ≡ ((get_id_or_insert t x).0, u)
  insert_again t u x later = known_id u x _ (later.looks x _ (insert-Remembers t x).1)

module _ {W : Type 0} ⦃sr : Semiring W⦄ (cf : ComposeFilter W)
    ⦃eq : Equality (ComposeStateTuple cf.Fs)⦄ where
  -- A part of an expansion that has succeeded adds to the table, and with a later table does the same
  -- and leaves it.
  pub record Replays (call : Expansion cf → Result (Expansion cf)) (x y : Expansion cf)
      : Type 0 where
    pub extends : Extends x.1 y.1
    pub again : (u : Table cf) → Extends y.1 u → call (x.0, u) ≡ ok (y.0, u)

  Replays-trans :
      (f g h : Expansion cf → Result (Expansion cf)) (x y z : Expansion cf)
      → Replays f x y
      → Replays g y z
      → ((u : Table cf)
          → f (x.0, u) ≡ ok (y.0, u)
          → g (y.0, u) ≡ ok (z.0, u)
          → h (x.0, u) ≡ ok (z.0, u))
      → Replays h x z
  Replays-trans f g h x y z a b joined = record {
    extends = Extends-trans x.1 y.1 z.1 a.extends b.extends;
    again =
        λ u later. joined u (a.again u (Extends-trans y.1 z.1 u b.extends later)) (b.again u later);
  }

  blocked-Replays :
      (filter : cf.Filter) (arc1 arc2 : Tr W) (x : Expansion cf)
      → cf.equals (cf.filter_tr filter arc1 arc2) cf.no_state ≡ true
      → Replays (push_tr cf filter arc1 arc2) x x
  unfolding push_tr
  blocked-Replays filter arc1 arc2 x e = record {
    extends = Extends-refl x.1;
    again = λ u later. ground (arith, e);
  }

  behind-Replays :
      (filter : cf.Filter) (arc1 arc2 : Tr W) (weight : W) (x : Expansion cf)
      → cf.equals (cf.filter_tr filter arc1 arc2) cf.no_state ≡ false
      → sr.times arc1.weight arc2.weight ≡ ok weight
      → Replays (push_tr cf filter arc1 arc2) x (behind cf filter arc1 arc2 weight x)
  unfolding push_tr add_tr behind made_tr tuple_of
  behind-Replays filter arc1 arc2 weight x e times =
      let tuple = tuple_of cf filter arc1 arc2 in
      record {
        extends = (insert-Remembers x.1 tuple).0;
        again = λ u later.
            let same_id = insert_again x.1 u tuple later in ground (arith, e, times, same_id);
      }

  push_tr-Replays :
      (filter : cf.Filter) (arc1 arc2 : Tr W) (x y : Expansion cf)
      → push_tr cf filter arc1 arc2 x ≡ ok y
      → Replays (push_tr cf filter arc1 arc2) x y
  push_tr-Replays filter arc1 arc2 x y h =
      ⊎_elim
        (λ (e, q).
          subst (Replays (push_tr cf filter arc1 arc2) x) q (blocked-Replays filter arc1 arc2 x e))
        (λ (e, w, times, q).
          subst (Replays (push_tr cf filter arc1 arc2) x) q
            (behind-Replays filter arc1 arc2 w x e times))
        (push_tr-cases cf filter arc1 arc2 x y h)

  -- The push on either side, and the loops.
  side-Replays :
      (filter : cf.Filter) (input : Bool) (tr arca : Tr W) (x y : Expansion cf)
      → (if input then push_tr cf filter tr arca x else push_tr cf filter arca tr x) ≡ ok y
      → Replays
          (λ z. if input then push_tr cf filter tr arca z else push_tr cf filter arca tr z)
          x
          y
  side-Replays filter true tr arca x y h = push_tr-Replays filter tr arca x y h
  side-Replays filter false tr arca x y h = push_tr-Replays filter arca tr x y h

  selected-Replays :
      (sa : ℕ) (tr : Tr W) (input : Bool) (filter : cf.Filter) (it : List (IterItemMatcher W))
      (x y : Expansion cf)
      → match_tr_selected cf sa tr input filter it x ≡ ok y
      → Replays (match_tr_selected cf sa tr input filter it) x y
  unfolding match_tr_selected
  selected-Replays sa tr input filter [] x y h =
      subst (Replays (λ z. ok z) x) (ok-inj h)
        (record { extends = Extends-refl x.1; again = λ u later. refl })
  selected-Replays sa tr input filter (item ∷ it) x y h =
      let (arca, e1, e2) =
        >>=-eq-ok (into_tr item sa (if input then match_input else match_output)) _ h in
      let (z, e3, e4) =
        >>=-eq-ok (if input then push_tr cf filter tr arca x else push_tr cf filter arca tr x) _
          e2 in
      Replays-trans
        (λ z. if input then push_tr cf filter tr arca z else push_tr cf filter arca tr z)
        (match_tr_selected cf sa tr input filter it)
        (match_tr_selected cf sa tr input filter (item ∷ it)) x z y
        (side-Replays filter input tr arca x z e3) (selected-Replays sa tr input filter it z y e4)
        (λ u p q. ground (arith, e1, p, q))

  pub match_tr-Replays :
      (op : ComposeFstOp W) (sa : ℕ) (tr : Tr W) (input : Bool) (filter : cf.Filter)
      (selector : Selector) (x y : Expansion cf)
      → match_tr cf op sa tr input filter selector x ≡ ok y
      → Replays (match_tr cf op sa tr input filter selector) x y
  unfolding match_tr
  match_tr-Replays op sa tr input filter fst1_matcher2 x y h =
      let (it, e1, e2) =
        >>=-eq-ok (op.matcher2.iter sa (if input then tr.olabel else tr.ilabel)) _ h in
      let r = selected-Replays sa tr input filter it x y e2 in
      record { extends = r.extends; again = λ u later. ground (arith, e1, r.again u later) }
  match_tr-Replays op sa tr input filter fst2_matcher1 x y h =
      let (it, e1, e2) =
        >>=-eq-ok (op.matcher1.iter sa (if input then tr.olabel else tr.ilabel)) _ h in
      let r = selected-Replays sa tr input filter it x y e2 in
      record { extends = r.extends; again = λ u later. ground (arith, e1, r.again u later) }

  pub match_trs-Replays :
      (op : ComposeFstOp W) (sa : ℕ) (trs : List (Tr W)) (input : Bool) (filter : cf.Filter)
      (selector : Selector) (x y : Expansion cf)
      → match_trs cf op sa trs input filter selector x ≡ ok y
      → Replays (match_trs cf op sa trs input filter selector) x y
  unfolding match_trs
  match_trs-Replays op sa [] input filter selector x y h =
      subst (Replays (λ z. ok z) x) (ok-inj h)
        (record { extends = Extends-refl x.1; again = λ u later. refl })
  match_trs-Replays op sa (tr ∷ trs) input filter selector x y h =
      let (z, e1, e2) = >>=-eq-ok (match_tr cf op sa tr input filter selector x) _ h in
      Replays-trans (match_tr cf op sa tr input filter selector)
        (match_trs cf op sa trs input filter selector)
        (match_trs cf op sa (tr ∷ trs) input filter selector) x z y
        (match_tr-Replays op sa tr input filter selector x z e1)
        (match_trs-Replays op sa trs input filter selector z y e2) (λ u p q. ground (arith, p, q))
