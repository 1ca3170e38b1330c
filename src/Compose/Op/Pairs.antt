-- ===== src/Compose/Op/Pairs.antt =====
-- The pairs of transitions that an expansion asks the filter about.
use mathlib.Core.List.{Memᴰ}
use mathlib.Core.List.Memᴰ.{head, tail, not-nil, cases_cons, of_map}
use mathlib.Core.List.Memᴰ
use rustfst.Base.{
  ℕ, ◌≡◌, ◌⊎◌, ◌↔◌, ◌==◌, inl, inr, ⊎_elim, refl, sym, ap, subst, ◌∙◌, Bool, true, false, List, [],
  ◌∷◌, map, Bool-cases, ok, >>=-eq-ok, arith, if◌then◌else◌, ok-inj,
}
use rustfst.Tr.{Tr, eps_label}
use rustfst.Weights.{Semiring}
use rustfst.Lazy.StateTable.{Equality}
use rustfst.Compose.{ComposeFilter, eps_loop_input, eps_loop_output}
use rustfst.Compose.Matcher.{
  MatchType, match_input, match_output, IterItemMatcher, tr_item, eps_loop_item, into_tr,
}
use rustfst.Compose.Matcher.Sorted.{with_label, found, sought}
use rustfst.Compose.Op.{ComposeStateTuple, Expansion, push_tr, match_tr_selected}
use rustfst.Compose.Op.Expands.{Expands, Expands-iff, Expands-none, Expands-trans, Expands-push}

module _ {W : Type 0} where
  -- Of a transition of the machine that is walked through and one of the machine that is matched, the
  -- first machine's comes first.
  abbrev pub Pick : Bool → Tr W → Tr W → Tr W → Tr W → Type 0
  Pick true t u a b = (a ≡ t) × (b ≡ u)
  Pick false t u a b = (a ≡ u) × (b ≡ t)

  with_label-Mem :
      (side : Tr W → ℕ) (label : ℕ) (trs : List (Tr W)) (t : Tr W)
      → Memᴰ t (with_label side label trs) ↔ (Memᴰ t trs × (side t ≡ label))
  with_label-Mem side label [] t = (λ m. absurd (not-nil m), λ (m, _). absurd (not-nil m))
  with_label-Mem side label (x ∷ trs) t = elim (Bool-cases (side x == label)) [
    | inl e ↦
        let same : with_label side label (x ∷ trs) ≡ x ∷ with_label side label trs =
          ground (arith, e) in
        let at : side x ≡ label = ground arith in
        (
          λ m.
              ⊎_elim (λ q. (head q, ap side q ∙ at))
                (λ m'. let (k, l) = (with_label-Mem side label trs t).0 m' in (tail k, l))
                (cases_cons (subst (Memᴰ t) same m)),
          λ (m, l). subst (Memᴰ t) (sym same) (
              ⊎_elim (λ q. head q) (λ m'. tail ((with_label-Mem side label trs t).1 (m', l)))
                (cases_cons m)),
        )
    | inr e ↦
        let same : with_label side label (x ∷ trs) ≡ with_label side label trs =
          ground (arith, e) in
        (
          λ m.
              let (k, l) = (with_label-Mem side label trs t).0 (subst (Memᴰ t) same m) in
              (tail k, l),
          λ (m, l). subst (Memᴰ t) (sym same) (
              ⊎_elim
                (λ q.
                  let at : side x ≡ label = ap side (sym q) ∙ l in absurd (ground (arith, at, e)))
                (λ m'. (with_label-Mem side label trs t).1 (m', l)) (cases_cons m)),
        )
  ]

  -- A transition among the items, and the loop.
  AsTr : (Tr W → ℕ) → ℕ → List (Tr W) → IterItemMatcher W → Type 0
  AsTr side label trs item = (t : Tr W) × (item ≡ tr_item t) × Memᴰ t trs × (side t ≡ sought label)

  AsTr-map :
      (side : Tr W → ℕ) (label : ℕ) (trs : List (Tr W)) (item : IterItemMatcher W)
      → Memᴰ item (map tr_item (with_label side (sought label) trs)) ↔ AsTr side label trs item
  unfolding AsTr
  AsTr-map side label trs item = (
    λ m.
        let (t, at, e) = of_map tr_item (with_label side (sought label) trs) m in
        let (k, l) = (with_label-Mem side (sought label) trs t).0 at in (t, sym e, k, l),
    λ (t, e, k, l).
        subst (λ (x : IterItemMatcher W). Memᴰ x (map tr_item (with_label side (sought label) trs)))
          (sym e) (Memᴰ.map tr_item ((with_label-Mem side (sought label) trs t).1 (k, l))),
  )

  found-Mem :
      (side : Tr W → ℕ) (label : ℕ) (trs : List (Tr W)) (item : IterItemMatcher W)
      → Memᴰ item (found side label trs)
        ↔ (((item ≡ eps_loop_item) × (label ≡ eps_label)) ⊎ AsTr side label trs item)
  found-Mem side label trs item =
      let rest : List (IterItemMatcher W) = map tr_item (with_label side (sought label) trs) in
      elim (Bool-cases (label == eps_label)) [
        | inl e ↦
            let same : found side label trs ≡ eps_loop_item ∷ rest = ground (arith, e) in
            let eps : label ≡ eps_label = ground arith in
            (
              λ m.
                  ⊎_elim (λ q. inl (q, eps)) (λ m'. inr ((AsTr-map side label trs item).0 m'))
                    (cases_cons (subst (Memᴰ item) same m)),
              λ o.
                  subst (Memᴰ item) (sym same)
                    (⊎_elim (λ (q, _). head q) (λ t. tail ((AsTr-map side label trs item).1 t)) o),
            )
        | inr e ↦
            let same : found side label trs ≡ rest = ground (arith, e) in
            (
              λ m. inr ((AsTr-map side label trs item).0 (subst (Memᴰ item) same m)),
              λ o. subst (Memᴰ item) (sym same) (
                  ⊎_elim (λ (_, q). absurd (ground (arith, q, e)))
                    (λ t. (AsTr-map side label trs item).1 t) o),
            )
      ]

-- The type by which the side that is matched is looked up.
abbrev pub matched_type : Bool → MatchType
matched_type input = if input then match_input else match_output

module _ {W : Type 0} ⦃sr : Semiring W⦄ where
  -- The label of a transition that is looked up in the other machine, and the label it is matched with.
  abbrev pub own : Bool → Tr W → ℕ
  own input t = if input then t.olabel else t.ilabel

  abbrev pub other : Bool → Tr W → ℕ
  other input u = if input then u.ilabel else u.olabel

  abbrev pub waiting : Bool → ℕ → Tr W
  waiting input sa = if input then eps_loop_input sa else eps_loop_output sa

  -- The transitions of the matched side that go with one of the other.
  abbrev pub Other : Bool → ℕ → List (Tr W) → Tr W → Tr W → Type 0
  Other input sa us t u =
      ((own input t ≡ eps_label) × (u ≡ waiting input sa))
      ⊎ (Memᴰ u us × (other input u ≡ sought (own input t)))

module _ {W : Type 0} ⦃sr : Semiring W⦄ (cf : ComposeFilter W)
    ⦃eq : Equality (ComposeStateTuple cf.Fs)⦄ (filter : cf.Filter) where
  -- The pairs of one transition and the items of a list.
  abbrev OfItems : Bool → ℕ → Tr W → List (IterItemMatcher W) → Tr W → Tr W → Type 0
  OfItems input sa tr it a b =
      (item : IterItemMatcher W) × Memᴰ item it
      × (u : Tr W) × (into_tr item sa (matched_type input) ≡ ok u)
      × Pick input tr u a b

  Pick-Expands :
      (input : Bool) (tr u : Tr W) (x y : Expansion cf)
      → (if input then push_tr cf filter tr u x else push_tr cf filter u tr x) ≡ ok y
      → Expands cf filter (Pick input tr u) x y
  Pick-Expands true tr u x y h = Expands-push cf filter tr u x y h
  Pick-Expands false tr u x y h = Expands-push cf filter u tr x y h

  pub selected-Expands :
      (input : Bool) (sa : ℕ) (tr : Tr W) (it : List (IterItemMatcher W)) (x y : Expansion cf)
      → match_tr_selected cf sa tr input filter it x ≡ ok y
      → Expands cf filter (OfItems input sa tr it) x y
  unfolding match_tr_selected
  selected-Expands input sa tr [] x y h =
      subst (Expands cf filter (OfItems input sa tr []) x) (ok-inj h) (
        Expands-iff cf filter _ _ x x
          (λ a b. (λ f. absurd f, λ (i, m, _, _, _). absurd (not-nil m)))
          (Expands-none cf filter x))
  selected-Expands input sa tr (item ∷ it) x y h =
      let (u, e1, e2) = >>=-eq-ok (into_tr item sa (matched_type input)) _ h in
      let (z, e3, e4) =
        >>=-eq-ok (if input then push_tr cf filter tr u x else push_tr cf filter u tr x) _ e2 in
      let here = Pick-Expands input tr u x z e3 in
      let rest = selected-Expands input sa tr it z y e4 in
      Expands-iff cf filter _ _ x y
        (λ a b. (
          λ o.
              ⊎_elim (λ p. (item, head refl, u, e1, p)) (λ (i, m, v, e, p). (i, tail m, v, e, p)) o,
          λ (i, m, v, e, p).
              ⊎_elim
                (λ q. inl (
                  subst (λ (w : Tr W). Pick input tr w a b)
                    (ok-inj (
                      sym e
                      ∙ ap (λ (j : IterItemMatcher W). into_tr j sa (matched_type input)) q
                      ∙ e1))
                    p))
                (λ m'. inr (i, m', v, e, p)) (cases_cons m),
        ))
        (Expands-trans cf filter _ _ x z y here rest)

  waits :
      (input : Bool) (sa : ℕ)
      → into_tr {W = W} eps_loop_item sa (matched_type input) ≡ ok (waiting input sa)
  waits true sa = refl
  waits false sa = refl

  pub items-Other :
      (input : Bool) (sa : ℕ) (t : Tr W) (us : List (Tr W)) (a b : Tr W)
      → OfItems input sa t (found (other input) (own input t) us) a b
        ↔ ((u : Tr W) × Other input sa us t u × Pick input t u a b)
  unfolding AsTr
  items-Other input sa t us a b = (
    λ (item, m, u, e, p).
        ⊎_elim
          (λ (q, eps).
            let same : u ≡ waiting input sa = ok-inj (
              sym e
              ∙ ap (λ (j : IterItemMatcher W). into_tr j sa (matched_type input)) q
              ∙ waits input sa) in
            (u, inl (eps, same), p))
          (λ (v, q, k, l).
            let same : v ≡ u =
              ok-inj
                (sym (ap (λ (j : IterItemMatcher W). into_tr j sa (matched_type input)) q) ∙ e) in
            (u, inr (subst (λ (w : Tr W). Memᴰ w us) same k, sym (ap (other input) same) ∙ l), p))
          ((found-Mem (other input) (own input t) us item).0 m),
    λ (u, o, p).
        ⊎_elim
          (λ (eps, q). (
            eps_loop_item,
            (found-Mem (other input) (own input t) us eps_loop_item).1 (inl (refl, eps)),
            u,
            waits input sa ∙ ap ok (sym q),
            p,
          ))
          (λ (k, l). (
            tr_item u,
            (found-Mem (other input) (own input t) us (tr_item u)).1 (inr (u, refl, k, l)),
            u,
            refl,
            p,
          ))
          o,
  )
