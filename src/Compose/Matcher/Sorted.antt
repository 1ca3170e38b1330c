-- ===== src/Compose/Matcher/Sorted.antt =====
-- compose/matchers/sorted_matcher.rs against a scan of all transitions.
use Prim.Native.Nat.{compare}
use rustfst.Base.{
  ℕ, zero, suc, ◌+◌, ◌≤◌, ◌<◌, ◌≡◌, ◌≢◌, ◌==◌, leb, if◌then◌else◌, Bool, true, false, refl, sym, ap,
  ◌∙◌, List, [], ◌∷◌, ◌++◌, length, get_elem?, drop, map, none, some, Result, ok, Option-cases,
  Bool-cases, inl, inr, arith,
}
use rustfst.Base.Sorting.{IsOrdered}
use rustfst.Tr.{Tr, eps_label}
use rustfst.Compose.{no_label}
use rustfst.Compose.Matcher.{
  MatchType, match_input, match_output, IterItemMatcher, tr_item, eps_loop_item,
  IteratorSortedMatcher, LowerBoundBy, IsPartitioned, IsLowerBoundBy, get_label, iterator_new, next,
  items,
}

-- The label that is looked for.
abbrev pub sought : ℕ → ℕ
sought label = if label == no_label then eps_label else label

module _ {W : Type 0} where
  -- The transitions with the label; and those of them before the first with another label.
  abbrev pub with_label : (Tr W → ℕ) → ℕ → List (Tr W) → List (Tr W)
  with_label label wanted [] = []
  with_label label wanted (tr ∷ trs) =
      let rest = with_label label wanted trs in if label tr == wanted then tr ∷ rest else rest

  abbrev leading : (Tr W → ℕ) → ℕ → List (Tr W) → List (Tr W)
  leading label wanted [] = []
  leading label wanted (tr ∷ trs) =
      let rest = leading label wanted trs in if label tr == wanted then tr ∷ rest else []

  drop-at :
      (xs : List (Tr W)) (pos : ℕ) (x : Tr W)
      → get_elem? xs pos ≡ some x
      → drop pos xs ≡ x ∷ drop (suc pos) xs
  drop-at [] pos x h = cc
  drop-at (y ∷ xs) zero x h = ground arith
  drop-at (y ∷ xs) (suc pos) x h = drop-at xs pos x h

  drop-past : (xs : List (Tr W)) (pos : ℕ) → get_elem? xs pos ≡ none → drop pos xs ≡ []
  drop-past [] zero h = refl
  drop-past [] (suc pos) h = refl
  drop-past (y ∷ xs) zero h = cc
  drop-past (y ∷ xs) (suc pos) h = drop-past xs pos h

  module _ (label : Tr W → ℕ) (match_type : MatchType)
      (labels : (tr : Tr W) → get_label match_type tr ≡ ok (label tr)) where
    -- Behind the epsilon loop the iterator runs over the transitions that lead with the label.
    items-leading :
        (fuel : ℕ) (trs : List (Tr W)) (wanted pos : ℕ)
        → length (drop pos trs) < fuel
        → items fuel (record {
          trs = trs;
          match_label = wanted;
          pos = pos;
          current_loop = false;
          match_type = match_type;
        })
          ≡ some (ok (map tr_item (leading label wanted (drop pos trs))))
    unfolding items next
    items-leading zero trs wanted pos lt = elim lt [ ]
    items-leading (suc fuel) trs wanted pos lt = elim (Option-cases (get_elem? trs pos)) [
      | inl e ↦ ground (arith, e, drop-past trs pos e)
      | inr (x, e) ↦
          let d = drop-at trs pos x e in
          let rest = items-leading fuel trs wanted (pos + 1) (ground (arith, d, lt)) in
          elim (Bool-cases (label x == wanted)) [
            | inl h ↦ ground (arith, e, d, labels x, h, rest)
            | inr h ↦ ground (arith, e, d, labels x, h)
          ]
    ]

  -- Ordered by the label.
  abbrev pub IsSorted : (Tr W → ℕ) → List (Tr W) → Type 0
  IsSorted label trs = IsOrdered (λ a b. leb (label a) (label b)) trs

  module _ (label : Tr W → ℕ) (wanted : ℕ) where
    IsSorted-tail : (x : Tr W) (xs : List (Tr W)) → IsSorted label (x ∷ xs) → IsSorted label xs
    IsSorted-tail x [] h = tt
    IsSorted-tail x (y ∷ xs) h = h.1

    IsSorted-at :
        (trs : List (Tr W)) (j k : ℕ) (x y : Tr W)
        → IsSorted label trs
        → j ≤ k
        → get_elem? trs j ≡ some x
        → get_elem? trs k ≡ some y
        → label x ≤ label y
    IsSorted-at [] j k x y s le e f = cc
    IsSorted-at (a ∷ trs) zero zero x y s le e f = ground arith
    IsSorted-at (a ∷ []) zero (suc k) x y s le e f = cc
    IsSorted-at (a ∷ b ∷ trs) zero (suc k) x y s le e f =
        ground (arith, IsSorted-at (b ∷ trs) 0 k b y s.1 (omega arith) refl f, s.0)
    IsSorted-at (a ∷ trs) (suc j) (suc k) x y s le e f =
        IsSorted-at trs j k x y (IsSorted-tail a trs s) (omega arith) e f
    IsSorted-at (a ∷ trs) (suc j) zero x y s le e f = absurd (omega arith)

    with_label-above :
        (trs : List (Tr W))
        → ((k : ℕ) (x : Tr W) → get_elem? trs k ≡ some x → wanted < label x)
        → with_label label wanted trs ≡ []
    with_label-above [] h = refl
    with_label-above (x ∷ trs) h =
        ground (arith, with_label-above trs (λ k y e. h (suc k) y e), h 0 x refl)

    leading-with_label :
        (trs : List (Tr W))
        → IsSorted label trs
        → ((k : ℕ) (x : Tr W) → get_elem? trs k ≡ some x → wanted ≤ label x)
        → leading label wanted trs ≡ with_label label wanted trs
    leading-with_label [] s h = refl
    leading-with_label (x ∷ trs) s h = elim (Bool-cases (label x == wanted)) [
      | inl e ↦
          ground (arith, e, leading-with_label trs (IsSorted-tail x trs s) (λ k y f. h (suc k) y f))
      | inr e ↦
          let above = with_label-above trs (λ k y f.
            let le = IsSorted-at (x ∷ trs) 0 (suc k) x y s (omega arith) refl f in
            ground (arith, le, e, h 0 x refl)) in
          ground (arith, e, above)
    ]

    -- What is left behind a lower bound leads with all transitions of the label.
    leading-drop :
        (trs : List (Tr W)) (bound : ℕ)
        → IsSorted label trs
        → ((k : ℕ) (x : Tr W) → k < bound → get_elem? trs k ≡ some x → label x < wanted)
        → ((k : ℕ) (x : Tr W) → bound ≤ k → get_elem? trs k ≡ some x → wanted ≤ label x)
        → leading label wanted (drop bound trs) ≡ with_label label wanted trs
    leading-drop trs zero s lo hi = leading-with_label trs s (λ k x e. hi k x (omega arith) e)
    leading-drop [] (suc bound) s lo hi = refl
    leading-drop (x ∷ trs) (suc bound) s lo hi =
        let rest =
          leading-drop trs bound (IsSorted-tail x trs s) (λ k y lt e. lo (suc k) y (omega arith) e)
            (λ k y le e. hi (suc k) y (omega arith) e) in
        ground (arith, rest, lo 0 x (omega arith) refl)

    partitioned :
        (trs : List (Tr W)) → IsSorted label trs → IsPartitioned trs (λ x. compare (label x) wanted)
    partitioned trs s j k x y le e f h = ground (arith, IsSorted-at trs j k x y s le e f)

    leading-bound :
        (lower_bound_by : LowerBoundBy (Tr W))
        → IsLowerBoundBy lower_bound_by
        → (trs : List (Tr W)) → IsSorted label trs
        → leading label wanted (drop (lower_bound_by trs (λ x. compare (label x) wanted)) trs)
          ≡ with_label label wanted trs
    leading-bound lower_bound_by spec trs s =
        leading-drop trs _ s
          (λ k x lt e. ground (arith, spec.before trs _ (partitioned trs s) k x lt e))
          (λ k x le e. ground (arith, spec.behind trs _ (partitioned trs s) k x le e))

    length-drop : (n : ℕ) (xs : List (Tr W)) → length (drop n xs) ≤ length xs
    length-drop zero xs = omega arith
    length-drop (suc n) [] = omega arith
    length-drop (suc n) (x ∷ xs) = omega (arith, length-drop n xs)

  -- The items that a scan of all transitions finds.
  abbrev pub found : (Tr W → ℕ) → ℕ → List (Tr W) → List (IterItemMatcher W)
  found side label trs =
      (if label == eps_label then eps_loop_item ∷ [] else [])
      ++ map tr_item (with_label side (sought label) trs)

  -- The iterator has been made, and a loop over it sees the items.
  abbrev pub Finds : Result (IteratorSortedMatcher W) → ℕ → List (IterItemMatcher W) → Type 0
  Finds made fuel expected =
      (it : IteratorSortedMatcher W) × (made ≡ ok it) × (items fuel it ≡ some (ok expected))

  module _ (label : Tr W → ℕ) (match_type : MatchType)
      (labels : (tr : Tr W) → get_label match_type tr ≡ ok (label tr)) where
    -- With the loop pending, and without it.
    at : Bool → List (Tr W) → ℕ → ℕ → IteratorSortedMatcher W
    at pending trs wanted pos = record {
      trs = trs;
      match_label = sought wanted;
      pos = pos;
      current_loop = pending;
      match_type = match_type;
    }

    Finds-loop :
        (fuel : ℕ) (trs : List (Tr W)) (wanted : ℕ)
        → IsSorted label trs
        → wanted ≡ eps_label
        → length trs + 2 ≤ fuel
        → items fuel (at true trs wanted 0) ≡ some (ok (found label wanted trs))
    unfolding items next at
    Finds-loop (suc fuel) trs wanted s e le =
        let rest = items-leading label match_type labels fuel trs (sought wanted) 0 (omega arith) in
        let all = leading-with_label label (sought wanted) trs s (λ k x at_k. ground arith) in
        ground (arith, rest, all, e)
    Finds-loop zero trs wanted s e le = absurd (omega arith)

    Finds-bound :
        (lower_bound_by : LowerBoundBy (Tr W))
        → IsLowerBoundBy lower_bound_by
        → (fuel : ℕ) (trs : List (Tr W)) (wanted : ℕ) → IsSorted label trs
        → wanted ≢ eps_label
        → length trs + 2 ≤ fuel
        → items fuel
            (at false trs wanted (lower_bound_by trs (λ x. compare (label x) (sought wanted))))
          ≡ some (ok (found label wanted trs))
    unfolding at
    Finds-bound lower_bound_by spec fuel trs wanted s n le =
        let bound = lower_bound_by trs (λ x. compare (label x) (sought wanted)) in
        let rest =
          items-leading label match_type labels fuel trs (sought wanted) bound
            (omega (arith, length-drop label 0 bound trs)) in
        let all = leading-bound label (sought wanted) lower_bound_by spec trs s in
        let plain : ◌≡◌ {A = List (IterItemMatcher W)}
            (if wanted == eps_label then eps_loop_item ∷ [] else []) [] =
          ground arith in
        rest
        ∙ ap (λ l. some (ok (map tr_item l))) all
        ∙ ap (λ l. some (ok (l ++ map tr_item (with_label label (sought wanted) trs)))) (sym plain)

  -- On transitions sorted by the side that is matched, the iterator of a sorted matcher yields the
  -- epsilon loop when the label is epsilon, and then exactly the transitions with the label, in their
  -- order, as a scan of all of them does; the reserved label stands for epsilon, without the loop. The
  -- loop over it ends within two rounds more than there are transitions. `lower_bound_by` is assumed to be
  -- a lower bound.
  pub sorted_matcher_lem :
      (lower_bound_by : LowerBoundBy (Tr W))
      → IsLowerBoundBy lower_bound_by
      → (trs : List (Tr W)) (label fuel : ℕ) → length trs + 2 ≤ fuel
      → (IsSorted (λ t. t.ilabel) trs
          → Finds
              (iterator_new lower_bound_by trs label match_input)
              fuel
              (found (λ t. t.ilabel) label trs))
        × (IsSorted (λ t. t.olabel) trs
            → Finds
                (iterator_new lower_bound_by trs label match_output)
                fuel
                (found (λ t. t.olabel) label trs))
  unfolding iterator_new at
  sorted_matcher_lem lower_bound_by spec trs label fuel le =
      elim (Bool-cases (label == eps_label)) [
        | inl e ↦ (
          λ s. (
            at (λ t. t.ilabel) match_input (λ t. refl) true trs label 0,
            ground (arith, e),
            Finds-loop (λ t. t.ilabel) match_input (λ t. refl) fuel trs label s (ground arith) le,
          ),
          λ s. (
            at (λ t. t.olabel) match_output (λ t. refl) true trs label 0,
            ground (arith, e),
            Finds-loop (λ t. t.olabel) match_output (λ t. refl) fuel trs label s (ground arith) le,
          ),
        )
        | inr e ↦ (
          λ s. (
            at (λ t. t.ilabel) match_input (λ t. refl) false trs label _,
            ground (arith, e),
            Finds-bound (λ t. t.ilabel) match_input (λ t. refl) lower_bound_by spec fuel trs label s
                (λ e'. ground arith) le,
          ),
          λ s. (
            at (λ t. t.olabel) match_output (λ t. refl) false trs label _,
            ground (arith, e),
            Finds-bound (λ t. t.olabel) match_output (λ t. refl) lower_bound_by spec fuel trs label
                s (λ e'. ground arith) le,
          ),
        )
      ]
