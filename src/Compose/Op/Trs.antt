-- ===== src/Compose/Op/Trs.antt =====
-- compose_fst_op.rs: the transitions of a state of the composition.
use mathlib.Core.List.{Memᴰ}
use mathlib.Core.List.Memᴰ.{head, tail, not-nil, cases_cons}
use rustfst.Base.{
  ℕ, ◌≡◌, ◌≢◌, ◌⊎◌, ◌↔◌, inl, inr, ⊎_elim, refl, sym, ap, subst, ◌∙◌, Bool, true, false, List, [],
  ◌∷◌, ok, >>=-eq-ok, arith, if◌then◌else◌, ok-inj,
}
use rustfst.Tr.{Tr, eps_label}
use rustfst.Weights.{Semiring}
use rustfst.Fst.{VectorFst, trs_of, get_trs}
use rustfst.Fst.Access.{on_state-eq-ok}
use rustfst.Lazy.StateTable.{Equality}
use rustfst.Compose.{ComposeFilter, no_label, eps_loop_input, eps_loop_output}
use rustfst.Compose.Matcher.{IterItemMatcher}
use rustfst.Compose.Matcher.Sorted.{found, sought}
use rustfst.Compose.Op.{
  ComposeStateTuple, Expansion, Table, ComposeFstOp, Matcher, Selector, fst1_matcher2,
  fst2_matcher1, match_tr_selected, match_tr, match_trs, ordered_expand,
}
use rustfst.Compose.Op.Expands.{Expands, Expands-iff, Expands-none, Expands-trans}
use rustfst.Compose.Op.Pairs.{Pick, Other, own, other, items-Other, selected-Expands}

abbrev selector_of : Bool → Selector
selector_of input = if input then fst1_matcher2 else fst2_matcher1

module _ {W : Type 0} ⦃sr : Semiring W⦄ where
  abbrev pub walked : Bool → ComposeFstOp W → VectorFst W
  walked input op = if input then op.fst1 else op.fst2

  abbrev pub matched : Bool → ComposeFstOp W → VectorFst W
  matched input op = if input then op.fst2 else op.fst1

  abbrev pub matcher : Bool → ComposeFstOp W → Matcher W
  matcher input op = if input then op.matcher2 else op.matcher1

  -- What the matcher of a side finds is what a scan of the transitions finds.
  abbrev pub Finds : Bool → ComposeFstOp W → Type 0
  Finds input op =
      (s label : ℕ) (it : List (IterItemMatcher W))
      → (matcher input op).iter s label ≡ ok it
      → it ≡ found (other input) label (trs_of (matched input op) s)

  -- No transition of the state carries the reserved label on the side that is looked up.
  abbrev pub IsReal : Bool → ComposeFstOp W → ℕ → Type 0
  IsReal input op s = (t : Tr W) → Memᴰ t (trs_of (walked input op) s) → own input t ≢ no_label

  -- The pairs that a composition joins: one machine waits while the other follows an epsilon, or both
  -- follow equal labels.
  abbrev pub IsPair : ComposeFstOp W → ℕ → ℕ → Tr W → Tr W → Type 0
  IsPair op s1 s2 a b =
      ((a ≡ eps_loop_output s1) × Memᴰ b (trs_of op.fst2 s2) × (b.ilabel ≡ eps_label))
      ⊎ (Memᴰ a (trs_of op.fst1 s1) × (a.olabel ≡ eps_label) × (b ≡ eps_loop_input s2))
      ⊎ (Memᴰ a (trs_of op.fst1 s1) × Memᴰ b (trs_of op.fst2 s2) × (a.olabel ≡ b.ilabel))

pub get_trs-trs_of :
    {W : Type 0} (f : VectorFst W) (s : ℕ) (trs : List (Tr W))
    → get_trs f s ≡ ok trs
    → trs ≡ trs_of f s
unfolding get_trs
get_trs-trs_of f s trs h =
    let (st, at, e) = on_state-eq-ok f s (λ st. st.trs) h in ground (arith, at, e)

module _ {W : Type 0} ⦃sr : Semiring W⦄ (cf : ComposeFilter W)
    ⦃eq : Equality (ComposeStateTuple cf.Fs)⦄ (filter : cf.Filter) (op : ComposeFstOp W) where
  tr_Expands :
      (input : Bool) (sa : ℕ) (t : Tr W) (us : List (Tr W)) (it : List (IterItemMatcher W))
      (x y : Expansion cf)
      → it ≡ found (other input) (own input t) us
      → match_tr_selected cf sa t input filter it x ≡ ok y
      → Expands cf filter (λ a b. (u : Tr W) × Other input sa us t u × Pick input t u a b) x y
  tr_Expands input sa t us it x y same h =
      let here = selected-Expands cf filter input sa t it x y h in
      Expands-iff cf filter _ _ x y (items-Other cf filter input sa t us) (
        selected-Expands cf filter input sa t (found (other input) (own input t) us) x y (
          subst
            (λ (l : List (IterItemMatcher W)). match_tr_selected cf sa t input filter l x ≡ ok y)
            same h))

  match_tr-Expands :
      (input : Bool)
      → Finds input op
      → (sa : ℕ) (t : Tr W) (x y : Expansion cf)
      → match_tr cf op sa t input filter (selector_of input) x ≡ ok y
      → Expands cf filter
          (λ a b.
            (u : Tr W) × Other input sa (trs_of (matched input op) sa) t u × Pick input t u a b)
          x
          y
  unfolding match_tr
  match_tr-Expands true finds sa t x y h =
      let (it, e1, e2) = >>=-eq-ok (op.matcher2.iter sa t.olabel) _ h in
      tr_Expands true sa t (trs_of op.fst2 sa) it x y (finds sa t.olabel it e1) e2
  match_tr-Expands false finds sa t x y h =
      let (it, e1, e2) = >>=-eq-ok (op.matcher1.iter sa t.ilabel) _ h in
      tr_Expands false sa t (trs_of op.fst1 sa) it x y (finds sa t.ilabel it e1) e2

  -- The pairs of all transitions of a list with those of the matched side.
  abbrev OfTrs : Bool → ℕ → List (Tr W) → Tr W → Tr W → Type 0
  OfTrs input sa ts a b =
      (t : Tr W) × Memᴰ t ts
      × (u : Tr W) × Other input sa (trs_of (matched input op) sa) t u
      × Pick input t u a b

  match_trs-Expands :
      (input : Bool)
      → Finds input op
      → (sa : ℕ) (ts : List (Tr W)) (x y : Expansion cf)
      → match_trs cf op sa ts input filter (selector_of input) x ≡ ok y
      → Expands cf filter (OfTrs input sa ts) x y
  unfolding match_trs
  match_trs-Expands input finds sa [] x y h =
      subst (Expands cf filter (OfTrs input sa []) x) (ok-inj h) (
        Expands-iff cf filter _ _ x x
          (λ a b. (λ f. absurd f, λ (t, m, _, _, _). absurd (not-nil m)))
          (Expands-none cf filter x))
  match_trs-Expands input finds sa (t ∷ ts) x y h =
      let (z, e1, e2) = >>=-eq-ok (match_tr cf op sa t input filter (selector_of input) x) _ h in
      Expands-iff cf filter _ _ x y
        (λ a b. (
          λ o.
              ⊎_elim (λ (u, o, p). (t, head refl, u, o, p))
                (λ (v, m, u, o, p). (v, tail m, u, o, p)) o,
          λ (v, m, u, o, p).
              ⊎_elim
                (λ q. inl (
                  u,
                  subst (λ (w : Tr W). Other input sa (trs_of (matched input op) sa) w u) q o,
                  subst (λ (w : Tr W). Pick input w u a b) q p,
                ))
                (λ m'. inr (v, m', u, o, p)) (cases_cons m),
        ))
        (Expands-trans cf filter _ _ x z y (match_tr-Expands input finds sa t x z e1)
          (match_trs-Expands input finds sa ts z y e2))

  -- The loop at the walked machine's state.
  abbrev walked_loop : Bool → ℕ → Tr W
  walked_loop input sb = if input then eps_loop_output sb else eps_loop_input sb

  pub ordered_Expands :
      (input : Bool)
      → Finds input op
      → (sa sb : ℕ) (table : Table cf) (y : Expansion cf)
      → ordered_expand cf op sa sb input filter (selector_of input) table ≡ ok y
      → Expands cf filter
          (λ a b.
            ((u : Tr W) × Other input sa (trs_of (matched input op) sa) (walked_loop input sb) u
              × Pick input (walked_loop input sb) u a b)
            ⊎ OfTrs input sa (trs_of (walked input op) sb) a b)
          ([], table)
          y
  unfolding ordered_expand
  ordered_Expands true finds sa sb table y h =
      let (z, e1, e2) =
        >>=-eq-ok (match_tr cf op sa (eps_loop_output sb) true filter fst1_matcher2 ([], table)) _
          h in
      let (ts, e3, e4) = >>=-eq-ok (get_trs op.fst1 sb) _ e2 in
      Expands-trans cf filter _ _ ([], table) z y
        (match_tr-Expands true finds sa (eps_loop_output sb) ([], table) z e1)
        (subst (λ (l : List (Tr W)). Expands cf filter (OfTrs true sa l) z y)
          (get_trs-trs_of op.fst1 sb ts e3) (match_trs-Expands true finds sa ts z y e4))
  ordered_Expands false finds sa sb table y h =
      let (z, e1, e2) =
        >>=-eq-ok (match_tr cf op sa (eps_loop_input sb) false filter fst2_matcher1 ([], table)) _
          h in
      let (ts, e3, e4) = >>=-eq-ok (get_trs op.fst2 sb) _ e2 in
      Expands-trans cf filter _ _ ([], table) z y
        (match_tr-Expands false finds sa (eps_loop_input sb) ([], table) z e1)
        (subst (λ (l : List (Tr W)). Expands cf filter (OfTrs false sa l) z y)
          (get_trs-trs_of op.fst2 sb ts e3) (match_trs-Expands false finds sa ts z y e4))

  -- The pairs of an expansion are those that a composition joins, whichever side is matched.
  abbrev Walked : Bool → ℕ → ℕ → Tr W → Tr W → Type 0
  Walked input sa sb a b =
      ((u : Tr W) × Other input sa (trs_of (matched input op) sa) (walked_loop input sb) u
        × Pick input (walked_loop input sb) u a b)
      ⊎ OfTrs input sa (trs_of (walked input op) sb) a b

  sought-real : (label : ℕ) → label ≢ no_label → sought label ≡ label
  sought-real label n = ground arith

  pub pairs_input :
      (s1 s2 : ℕ) → IsReal true op s1 → (a b : Tr W) → Walked true s2 s1 a b ↔ IsPair op s1 s2 a b
  pairs_input s1 s2 real a b = (
    λ o.
        ⊎_elim
          (λ (u, w, (p, q)).
            ⊎_elim (λ (e, _). absurd (ground arith))
              (λ (m, l). inl (
                p,
                subst (λ (t : Tr W). Memᴰ t (trs_of op.fst2 s2)) (sym q) m,
                ap (λ t. t.ilabel) q ∙ l,
              ))
              w)
          (λ (t, m, u, w, (p, q)).
            let at : Memᴰ a (trs_of op.fst1 s1) =
              subst (λ (t : Tr W). Memᴰ t (trs_of op.fst1 s1)) (sym p) m in
            ⊎_elim (λ (e, l). inr (inl (at, ap (λ t. t.olabel) p ∙ e, q ∙ l)))
              (λ (k, l). inr (
                inr (
                  at,
                  subst (λ (t : Tr W). Memᴰ t (trs_of op.fst2 s2)) (sym q) k,
                  ap (λ t. t.olabel) p
                      ∙ sym (sought-real t.olabel (real t m))
                      ∙ sym l
                      ∙ ap (λ t. t.ilabel) (sym q),
                )))
              w)
          o,
    λ o.
        ⊎_elim (λ (p, m, l). inl (b, inr (m, l), (p, refl)))
          (λ o'.
            ⊎_elim (λ (m, e, l). inr (a, m, b, inl (e, l), (refl, refl)))
              (λ (m, k, l).
                inr (a, m, b, inr (k, sym (sought-real a.olabel (real a m) ∙ l)), (refl, refl)))
              o')
          o,
  )

  pub pairs_output :
      (s1 s2 : ℕ) → IsReal false op s2 → (a b : Tr W) → Walked false s1 s2 a b ↔ IsPair op s1 s2 a b
  pairs_output s1 s2 real a b = (
    λ o.
        ⊎_elim
          (λ (u, w, (p, q)).
            ⊎_elim (λ (e, _). absurd (ground arith))
              (λ (m, l). inr (
                inl (
                  subst (λ (t : Tr W). Memᴰ t (trs_of op.fst1 s1)) (sym p) m,
                  ap (λ t. t.olabel) p ∙ l,
                  q,
                )))
              w)
          (λ (t, m, u, w, (p, q)).
            let at : Memᴰ b (trs_of op.fst2 s2) =
              subst (λ (t : Tr W). Memᴰ t (trs_of op.fst2 s2)) (sym q) m in
            ⊎_elim (λ (e, l). inl (p ∙ l, at, ap (λ t. t.ilabel) q ∙ e))
              (λ (k, l). inr (
                inr (
                  subst (λ (t : Tr W). Memᴰ t (trs_of op.fst1 s1)) (sym p) k,
                  at,
                  ap (λ t. t.olabel) p
                      ∙ l
                      ∙ sought-real t.ilabel (real t m)
                      ∙ ap (λ t. t.ilabel) (sym q),
                )))
              w)
          o,
    λ o.
        ⊎_elim (λ (p, m, l). inr (b, m, a, inl (l, p), (refl, refl)))
          (λ o'.
            ⊎_elim (λ (m, e, l). inl (a, inr (m, e), (refl, l)))
              (λ (m, k, l).
                inr (b, k, a, inr (m, l ∙ sym (sought-real b.ilabel (real b k))), (refl, refl)))
              o')
          o,
  )
