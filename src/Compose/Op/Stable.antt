-- ===== src/Compose/Op/Stable.antt =====
-- compose_fst_op.rs behind a cache: the answers of a composition stay.
use rustfst.Base.{
  ℕ, ◌≡◌, sym, ap, subst, ◌∙◌, Bool, true, false, [], Option, Result, ok, ◌>>=◌, >>=-eq-ok, arith,
  if◌then◌else◌, ok-inj,
}
use rustfst.Weights.{Semiring}
use rustfst.Lazy.StateTable.{Equality, find_tuple}
use rustfst.Lazy.Cache.{FstCache, IsFstCache}
use rustfst.Lazy.LazyFst.{LazyFst, start, get_trs, final_weight}
use rustfst.Lazy.LazyFst.Cached.{
  Later, same, by_start, by_trs, by_final, IsStable, Agrees, Refines, lazy_fst_lem,
}
use rustfst.Compose.{ComposeFilter, eps_loop_input, eps_loop_output}
use rustfst.Compose.Op.{
  ComposeStateTuple, Expansion, Table, ComposeFstOp, Selector, fst1_matcher2, fst2_matcher1,
  match_tr, ordered_expand, compute_trs, compute_final_weight, side_matched, compose_fst_op,
}
use rustfst.Compose.Op.OnDemand.{
  Extends, Extends-refl, Extends-trans, match_tr-Replays, match_trs-Replays,
}
use rustfst.Fst.{VectorFst, get_trs as vector_trs}

module _ {W : Type 0} ⦃sr : Semiring W⦄ (cf : ComposeFilter W)
    ⦃eq : Equality (ComposeStateTuple cf.Fs)⦄ (op : ComposeFstOp W) where
  -- A call that has succeeded adds to the table, and gives the same again from any later table.
  pub record Stays (call : Table cf → Result (Expansion cf)) (t : Table cf) (y : Expansion cf)
      : Type 0 where
    pub extends : Extends t y.1
    pub again : (u : Table cf) → Extends y.1 u → call u ≡ ok (y.0, u)

  ordered-Stays :
      (sa sb : ℕ) (input : Bool) (filter : cf.Filter) (selector : Selector) (t : Table cf)
      (y : Expansion cf)
      → ordered_expand cf op sa sb input filter selector t ≡ ok y
      → Stays (ordered_expand cf op sa sb input filter selector) t y
  unfolding ordered_expand
  ordered-Stays sa sb input filter selector t y h =
      let tr_loop = if input then eps_loop_output sb else eps_loop_input sb in
      let (z, e1, e2) = >>=-eq-ok (match_tr cf op sa tr_loop input filter selector ([], t)) _ h in
      let walked : VectorFst W = elim selector [
        | fst1_matcher2 ↦ op.fst1
        | fst2_matcher1 ↦ op.fst2
      ] in
      let (trs, e3, e4) = >>=-eq-ok (vector_trs walked sb) _ e2 in
      let a = match_tr-Replays cf op sa tr_loop input filter selector ([], t) z e1 in
      let b = match_trs-Replays cf op sa trs input filter selector z y e4 in
      record {
        extends = Extends-trans t z.1 y.1 a.extends b.extends;
        again = λ u later.
            let first = a.again u (Extends-trans z.1 y.1 u b.extends later) in
            ground (arith, first, e3, b.again u later);
      }

  chosen-Stays :
      (s1 s2 : ℕ) (input : Bool) (filter : cf.Filter) (t : Table cf) (y : Expansion cf)
      → (if input
          then ordered_expand cf op s2 s1 true filter fst1_matcher2 t
          else ordered_expand cf op s1 s2 false filter fst2_matcher1 t)
        ≡ ok y
      → Stays
          (λ u.
            if input
            then ordered_expand cf op s2 s1 true filter fst1_matcher2 u
            else ordered_expand cf op s1 s2 false filter fst2_matcher1 u)
          t
          y
  chosen-Stays s1 s2 true filter t y h = ordered-Stays s2 s1 true filter fst1_matcher2 t y h
  chosen-Stays s1 s2 false filter t y h = ordered-Stays s1 s2 false filter fst2_matcher1 t y h

  compute_trs-Stays :
      (state : ℕ) (t : Table cf) (y : Expansion cf)
      → compute_trs cf op state t ≡ ok y
      → Stays (compute_trs cf op state) t y
  unfolding compute_trs
  compute_trs-Stays state t y h =
      let (tuple, e1, e2) = >>=-eq-ok (find_tuple t state) _ h in
      let (filter, e3, e4) = >>=-eq-ok (cf.set_state cf.build tuple.s1 tuple.s2 tuple.fs) _ e2 in
      let (input, e5, e6) = >>=-eq-ok (side_matched cf op tuple.s1 tuple.s2) _ e4 in
      let r = chosen-Stays tuple.s1 tuple.s2 input filter t y e6 in
      record {
        extends = r.extends;
        again = λ u later.
            let known = (Extends-trans t y.1 u r.extends later).finds tuple state e1 in
            ground (arith, known, e3, e5, r.again u later);
      }

  compute_final-again :
      (state : ℕ) (t u : Table cf) (w : Option W)
      → compute_final_weight cf op state t ≡ ok w
      → Extends t u
      → compute_final_weight cf op state u ≡ ok w
  unfolding compute_final_weight
  compute_final-again state t u w h later =
      let (tuple, e1, e2) = >>=-eq-ok (find_tuple t state) _ h in
      let known = later.finds tuple state e1 in ground (arith, known, e2)

  start_is :
      (t u : Table cf) (x : Option ℕ)
      → (compose_fst_op cf op).compute_start t ≡ ok (x, u)
      → (op.start ≡ x) × (t ≡ u)
  start_is t u x h = (ap (λ p. p.0) (ok-inj h), ap (λ p. p.1) (ok-inj h))

  final_is :
      (t u : Table cf) (i : ℕ) (w : Option W)
      → (compose_fst_op cf op).compute_final_weight t i ≡ ok (w, u)
      → (compute_final_weight cf op i t ≡ ok w) × (t ≡ u)
  final_is t u i w h =
      let (v, e1, e2) = >>=-eq-ok (compute_final_weight cf op i t) _ h in
      (e1 ∙ ap ok (ap (λ p. p.0) (ok-inj e2)), ap (λ p. p.1) (ok-inj e2))

  Later-Extends : (t u : Table cf) → Later (compose_fst_op cf op) t u → Extends t u
  Later-Extends t u same = Extends-refl t
  Later-Extends t u (by_start {t = v} x e later) =
      subst (λ v. Extends v u) (sym (start_is t v x e).1) (Later-Extends v u later)
  Later-Extends t u (by_trs {t = v} i l e later) =
      Extends-trans t v u (compute_trs-Stays i t (l, v) e).extends (Later-Extends v u later)
  Later-Extends t u (by_final {t = v} i w e later) =
      subst (λ v. Extends v u) (sym (final_is t v i w e).1) (Later-Extends v u later)

  compose-IsStable : IsStable (compose_fst_op cf op)
  compose-IsStable = record {
    start_stays = λ t v u x h later. ap (λ s. ok (s, u)) (start_is t v x h).0;
    trs_stay =
        λ t v u i l h later. (compute_trs-Stays i t (l, v) h).again u (Later-Extends v u later);
    final_stays = λ t v u i w h later.
        let (e, q) = final_is t v i w h in
        let found =
          compute_final-again i t u w e
            (subst (λ v. Extends v u) (sym q) (Later-Extends v u later)) in
        ground (arith, found);
  }

  -- A composition computed on demand, with any cache that gives back what was inserted and agrees with
  -- the operation, refines the operation: the start, the transitions and the final weight of each state
  -- are those of the operation without a cache, its table of states is what it would be, and the cache
  -- still agrees; where the operation fails, the call fails. No answer is undone by states that a later
  -- expansion adds to the table.
  pub compose_fst_lem :
      (c : FstCache W)
      → IsFstCache c
      → (fst : LazyFst (compose_fst_op cf op) c) → Agrees (compose_fst_op cf op) c fst
      → Refines
          (compose_fst_op cf op)
          c
          (ok (op.start, fst.op))
          (start (compose_fst_op cf op) c fst)
        × ((i : ℕ)
            → Refines
                (compose_fst_op cf op)
                c
                (compute_trs cf op i fst.op)
                (get_trs (compose_fst_op cf op) c fst i))
        × ((i : ℕ)
            → Refines
                (compose_fst_op cf op)
                c
                (compute_final_weight cf op i fst.op >>= λ w. ok (w, fst.op))
                (final_weight (compose_fst_op cf op) c fst i))
  compose_fst_lem c laws fst v = lazy_fst_lem (compose_fst_op cf op) c compose-IsStable laws fst v
