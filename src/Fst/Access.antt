-- ===== src/Fst/Access.antt =====
-- What each operation of `Mutate` leaves at every state, start and final weight.
use rustfst.Base.{
  ℕ, zero, suc, ◌+◌, ◌-◌, ◌<◌, ◌≡◌, ◌⊎◌, inl, inr, refl, ap, sym, subst, ◌∙◌, ◌==◌, if◌then◌else◌,
  List, [], ◌∷◌, ◌++◌, length, get_elem?, set, length-append, length-set, get_elem?-lt,
  get_elem?-append_left, some, ok, arith, Option-cases,
}
use rustfst.Tr.{Tr}
use rustfst.Weights.{Semiring}
use rustfst.Props.Update.{add_tr_properties}
use rustfst.Fst.{
  VectorFstState, VectorFst, increment_num_epsilons, num_states, on_state, trs_of, final_of, TrAt,
}
use rustfst.Fst.Mutate.{last?, second_last?, properties_after_add_tr, push_tr, add_tr}

module _ {ℓ} {A : Type ℓ} where
  pub get_elem?-set :
      (xs : List A) (i j : ℕ) (v : A)
      → i < length xs
      → get_elem? (set xs i v) j ≡ (if i == j then some v else get_elem? xs j)
  get_elem?-set [] i j v h = elim h [ ]
  get_elem?-set (x ∷ xs) zero zero v h = refl
  get_elem?-set (x ∷ xs) zero (suc j) v h = ground arith
  get_elem?-set (x ∷ xs) (suc i) zero v h = ground arith
  get_elem?-set (x ∷ xs) (suc i) (suc j) v h = ground (arith, get_elem?-set xs i j v)

  -- Elements of a list with one more at the end.
  pub get_elem?-concat :
      (xs : List A) (x : A) (i : ℕ) {a : A}
      → get_elem? (xs ++ x ∷ []) i ≡ some a
      → (get_elem? xs i ≡ some a) ⊎ ((i ≡ length xs) × (a ≡ x))
  get_elem?-concat [] x zero h = inr (refl, ground arith)
  get_elem?-concat [] x (suc i) h = cc
  get_elem?-concat (y ∷ xs) x zero h = inl h
  get_elem?-concat (y ∷ xs) x (suc i) h = ground (arith, get_elem?-concat xs x i h)

  pub get_elem?-concat_last : (xs : List A) (x : A) → get_elem? (xs ++ x ∷ []) (length xs) ≡ some x
  get_elem?-concat_last [] x = refl
  get_elem?-concat_last (y ∷ xs) x = get_elem?-concat_last xs x

  pub get_elem?-concat_old :
      (xs : List A) (x : A) (i : ℕ) {a : A}
      → get_elem? xs i ≡ some a
      → get_elem? (xs ++ x ∷ []) i ≡ some a
  get_elem?-concat_old [] x i h = cc
  get_elem?-concat_old (y ∷ xs) x zero h = h
  get_elem?-concat_old (y ∷ xs) x (suc i) h = get_elem?-concat_old xs x i h

pub on_state-eq-ok {ℓ κ} :
    {W : Type ℓ} {B : Type κ} (f : VectorFst W) (id : ℕ) (use_state : VectorFstState W → B) {b : B}
    → on_state f id use_state ≡ ok b
    → (st : VectorFstState W) × (get_elem? f.states id ≡ some st) × (use_state st ≡ b)
on_state-eq-ok f id use_state h = elim (Option-cases (get_elem? f.states id)) [
  | inl e ↦ ground arith
  | inr (st, e) ↦ (st, e, ground arith)
]

-- What a change of one state's record leaves.
module _ {ℓ} {W : Type ℓ} where
  pub trs_of-set :
      (f g : VectorFst W) (s : ℕ) (st : VectorFstState W)
      → s < num_states f
      → g.states ≡ set f.states s st
      → (x : ℕ) → trs_of g x ≡ (if s == x then st.trs else trs_of f x)
  trs_of-set f g s st h e x = rw e (ground (arith, get_elem?-set f.states s x st))

  pub final_of-set :
      (f g : VectorFst W) (s : ℕ) (st : VectorFstState W)
      → s < num_states f
      → g.states ≡ set f.states s st
      → (x : ℕ) → final_of g x ≡ (if s == x then st.final_weight else final_of f x)
  final_of-set f g s st h e x = rw e (ground (arith, get_elem?-set f.states s x st))

  pub lt_of_TrAt : (f : VectorFst W) (s i : ℕ) (tr : Tr W) → TrAt f s i tr → s < num_states f
  lt_of_TrAt f s i tr h = elim (Option-cases (get_elem? f.states s)) [
    | inl e ↦ ground arith
    | inr (st, e) ↦ get_elem?-lt f.states s e
  ]

  pub lt_of_final : (f : VectorFst W) (s : ℕ) (w : W) → final_of f s ≡ some w → s < num_states f
  lt_of_final f s w h = elim (Option-cases (get_elem? f.states s)) [
    | inl e ↦ ground arith
    | inr (st, e) ↦ get_elem?-lt f.states s e
  ]

module _ {ℓ} {W : Type ℓ} where
  last?-concat : (trs : List (Tr W)) (tr : Tr W) → last? (trs ++ tr ∷ []) ≡ some tr
  last?-concat trs tr =
      let e : length (trs ++ tr ∷ []) - 1 ≡ length trs =
        omega (arith, length-append trs (tr ∷ [])) in
      ap (get_elem? (trs ++ tr ∷ [])) e ∙ get_elem?-concat_last trs tr

  second_last?-concat : (trs : List (Tr W)) (tr : Tr W) → second_last? (trs ++ tr ∷ []) ≡ last? trs
  second_last?-concat [] tr = refl
  second_last?-concat (x ∷ trs) tr =
      let n : length trs + 1 ≡ length (trs ++ tr ∷ []) = sym (length-append trs (tr ∷ [])) in
      let e : suc (length (trs ++ tr ∷ [])) - 2 ≡ length trs = omega (arith, n) in
      let e' : suc (length trs) - 1 ≡ length trs = omega arith in
      let old : get_elem? ((x ∷ trs) ++ tr ∷ []) (length trs) ≡ get_elem? (x ∷ trs) (length trs) =
        get_elem?-append_left (x ∷ trs) (tr ∷ []) (length trs) (omega arith) in
      ground (arith, n, e, e', old)

module _ {ℓ} {W : Type ℓ} ⦃sr : Semiring W⦄ where
  -- `add_tr` on a state of the machine.
  pub record AddsTr (f : VectorFst W) (s : ℕ) (tr : Tr W) (g : VectorFst W) : Type ℓ where
    pub in_range : s < num_states f
    pub trs : (x : ℕ) → trs_of g x ≡ (if s == x then trs_of f s ++ tr ∷ [] else trs_of f x)
    pub finals : (x : ℕ) → final_of g x ≡ final_of f x
    pub start : g.start_state ≡ f.start_state
    pub size : num_states g ≡ num_states f
    pub props : g.properties ≡ add_tr_properties f.properties s tr (last? (trs_of f s))

  push_tr-AddsTr :
      (f : VectorFst W) (s : ℕ) (tr : Tr W) (st : VectorFstState W)
      → get_elem? f.states s ≡ some st
      → AddsTr f s tr (push_tr f s tr st)
  unfolding properties_after_add_tr increment_num_epsilons
  push_tr-AddsTr f s tr st h = record {
    in_range = get_elem?-lt f.states s h;
    trs = λ x.
        ground (arith, trs_of-set f (push_tr f s tr st) s _ (get_elem?-lt f.states s h) refl x);
    finals = λ x.
        ground (arith, final_of-set f (push_tr f s tr st) s _ (get_elem?-lt f.states s h) refl x);
    start = refl;
    size = length-set f.states s _;
    props = ground (arith, last?-concat st.trs tr, second_last?-concat st.trs tr);
  }

  -- A successful `add_tr` adds its transition at the end of its state's, and nothing else.
  pub add_tr-AddsTr :
      (f g : VectorFst W) (s : ℕ) (tr : Tr W) → add_tr f s tr ≡ ok g → AddsTr f s tr g
  unfolding add_tr
  add_tr-AddsTr f g s tr h =
      let (st, at, e) = on_state-eq-ok f s (push_tr f s tr) h in
      subst (AddsTr f s tr) e (push_tr-AddsTr f s tr st at)
