-- ===== src/Fst/Effects.antt =====
-- What setting a final weight, clearing a state's transitions and adding states leave.
use rustfst.Base.{
  ℕ, zero, suc, ◌+◌, ◌<◌, ◌≡◌, ◌⊎◌, inl, inr, refl, ap, subst, ◌∙◌, ◌==◌, if◌then◌else◌, List, [],
  ◌∷◌, ◌++◌, length, get_elem?, replicate, length-append, length-set, length-replicate,
  get_elem?-lt, Option, none, some, ok, arith,
}
use rustfst.Weights.{Semiring}
use rustfst.Props.Update.{set_final_properties, add_state_properties, delete_trs_properties}
use rustfst.Fst.{VectorFstState, VectorFst, new_state, num_states, trs_of, final_of}
use rustfst.Fst.Mutate.{
  put_final, set_final, delete_final_weight, clear_trs, delete_trs, add_state, add_states,
}
use rustfst.Fst.Access.{trs_of-set, final_of-set, on_state-eq-ok}

module _ {ℓ} {W : Type ℓ} ⦃sr : Semiring W⦄ where
  pub record SetsFinal (f : VectorFst W) (s : ℕ) (w : Option W) (g : VectorFst W) : Type ℓ where
    pub in_range : s < num_states f
    pub trs : (x : ℕ) → trs_of g x ≡ trs_of f x
    pub finals : (x : ℕ) → final_of g x ≡ (if s == x then w else final_of f x)
    pub start : g.start_state ≡ f.start_state
    pub size : num_states g ≡ num_states f
    pub props : g.properties ≡ set_final_properties f.properties (final_of f s) w

  put_final-SetsFinal :
      (f : VectorFst W) (s : ℕ) (w : Option W) (st : VectorFstState W)
      → get_elem? f.states s ≡ some st
      → SetsFinal f s w (put_final f s w st)
  put_final-SetsFinal f s w st h = record {
    in_range = get_elem?-lt f.states s h;
    trs = λ x.
        ground (arith, trs_of-set f (put_final f s w st) s _ (get_elem?-lt f.states s h) refl x);
    finals = λ x. final_of-set f (put_final f s w st) s _ (get_elem?-lt f.states s h) refl x;
    start = refl;
    size = length-set f.states s _;
    props = rw (h, final_of);
  }

  -- A successful `set_final`.
  pub set_final-SetsFinal :
      (f g : VectorFst W) (s : ℕ) (w : W) → set_final f s w ≡ ok g → SetsFinal f s (some w) g
  unfolding set_final
  set_final-SetsFinal f g s w h =
      let (st, at, e) = on_state-eq-ok f s (put_final f s (some w)) h in
      subst (SetsFinal f s (some w)) e (put_final-SetsFinal f s (some w) st at)

  pub delete_final_weight-SetsFinal :
      (f g : VectorFst W) (s : ℕ) → delete_final_weight f s ≡ ok g → SetsFinal f s none g
  unfolding delete_final_weight
  delete_final_weight-SetsFinal f g s h =
      let (st, at, e) = on_state-eq-ok f s (put_final f s none) h in
      subst (SetsFinal f s none) e (put_final-SetsFinal f s none st at)

module _ {ℓ} {W : Type ℓ} where
  pub record ClearsTrs (f : VectorFst W) (s : ℕ) (g : VectorFst W) : Type ℓ where
    pub in_range : s < num_states f
    pub trs : (x : ℕ) → trs_of g x ≡ (if s == x then [] else trs_of f x)
    pub finals : (x : ℕ) → final_of g x ≡ final_of f x
    pub start : g.start_state ≡ f.start_state
    pub size : num_states g ≡ num_states f
    pub props : g.properties ≡ delete_trs_properties f.properties

  clear_trs-ClearsTrs :
      (f : VectorFst W) (s : ℕ) (st : VectorFstState W)
      → get_elem? f.states s ≡ some st
      → ClearsTrs f s (clear_trs f s st)
  clear_trs-ClearsTrs f s st h = record {
    in_range = get_elem?-lt f.states s h;
    trs = λ x. trs_of-set f (clear_trs f s st) s _ (get_elem?-lt f.states s h) refl x;
    finals = λ x.
        ground (arith, final_of-set f (clear_trs f s st) s _ (get_elem?-lt f.states s h) refl x);
    start = refl;
    size = length-set f.states s _;
    props = refl;
  }

  pub delete_trs-ClearsTrs : (f g : VectorFst W) (s : ℕ) → delete_trs f s ≡ ok g → ClearsTrs f s g
  unfolding delete_trs
  delete_trs-ClearsTrs f g s h =
      let (st, at, e) = on_state-eq-ok f s (clear_trs f s) h in
      subst (ClearsTrs f s) e (clear_trs-ClearsTrs f s st at)

  pub record AddsStates (f : VectorFst W) (n : ℕ) (g : VectorFst W) : Type ℓ where
    pub trs : (x : ℕ) → trs_of g x ≡ trs_of f x
    pub finals : (x : ℕ) → final_of g x ≡ final_of f x
    pub start : g.start_state ≡ f.start_state
    pub size : num_states g ≡ num_states f + n
    pub props : g.properties ≡ add_state_properties f.properties

  -- Reading past the old states finds a fresh state or none.
  fresh :
      (n i : ℕ)
      → (get_elem? (replicate n (new_state {W = W})) i ≡ none)
        ⊎ (get_elem? (replicate n (new_state {W = W})) i ≡ some new_state)
  fresh zero i = inl refl
  fresh (suc n) zero = inr refl
  fresh (suc n) (suc i) = fresh n i

  get_elem?-fresh :
      (xs : List (VectorFstState W)) (n x : ℕ)
      → (get_elem? (xs ++ replicate n new_state) x ≡ get_elem? xs x)
        ⊎ ((get_elem? (xs ++ replicate n new_state) x ≡ some new_state) × (get_elem? xs x ≡ none))
  get_elem?-fresh [] n x = ground (arith, fresh n x)
  get_elem?-fresh (y ∷ xs) n zero = inl refl
  get_elem?-fresh (y ∷ xs) n (suc x) = get_elem?-fresh xs n x

  pub add_states-AddsStates : (f : VectorFst W) (n : ℕ) → AddsStates f n (add_states f n)
  unfolding add_states
  add_states-AddsStates f n = record {
    trs = λ x. ground (arith, get_elem?-fresh f.states n x);
    finals = λ x. ground (arith, get_elem?-fresh f.states n x);
    start = refl;
    size =
        length-append f.states (replicate n new_state)
        ∙ ap (λ k. length f.states + k) (length-replicate n new_state);
    props = refl;
  }

  pub add_state-AddsStates : (f : VectorFst W) → AddsStates f 1 (add_state f).0
  unfolding add_state add_states
  add_state-AddsStates f = add_states-AddsStates f 1
