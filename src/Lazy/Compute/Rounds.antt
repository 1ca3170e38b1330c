-- ===== src/Lazy/Compute/Rounds.antt =====
-- lazy_fst.rs: under a budget of states, `compute_bounded` ends.
use rustfst.Base.{
  ℕ, zero, suc, ◌+◌, ◌≤◌, ◌<◌, ◌≡◌, ◌⊎◌, inl, inr, refl, sym, ap, subst, ◌∙◌, true, List, [], ◌∷◌,
  ◌++◌, length, length-append, set, Option, some, Result, ok, err, >>=-eq-ok, Result-cases,
  Bool-cases, Option-cases, List-cases, arith, ok-inj,
}
use rustfst.Tr.{Tr}
use rustfst.Weights.{Semiring}
use rustfst.Fst.{VectorFst}
use rustfst.Fst.Mutate.{new, add_states, set_start, set_properties}
use rustfst.Lazy.Cache.{FstCache}
use rustfst.Lazy.LazyFst.{FstOp, LazyFst, start, get_trs, final_weight}
use rustfst.Lazy.Compute.{
  Search, seen, widened, over, discover, discover_all, count_trs, visit_state, search_states,
  search_start, compute_bounded, finish_state,
}

module _ {W : Type 0} (budget : ℕ) where
  -- Each discovery is queued once, and none goes over the budget.
  pub record Counts (x y : Search W) : Type 0 where
    pub queued : y.num_discovered + length x.queue ≡ x.num_discovered + length y.queue
    pub within : (y.num_discovered ≤ budget) ⊎ (y.num_discovered ≡ x.num_discovered)

  discover-Counts : (x y : Search W) (s : ℕ) → discover (some budget) x s ≡ ok y → Counts x y
  unfolding discover
  discover-Counts x y s h =
      let visited = widened x.visited_states s in
      elim (Bool-cases (seen visited s)) [
        | inl e ↦
            let same : discover (some budget) x s ≡ ok (record x { visited_states = visited }) =
              ground (arith, e) in
            subst (Counts x) (ok-inj (sym same ∙ h)) (record { queued = refl; within = inr refl })
        | inr e ↦ elim (Bool-cases (over (some budget) (x.num_discovered + 1))) [
          | inl e' ↦ absurd (ground (arith, e, e', h))
          | inr e' ↦
              let same : discover (some budget) x s
                  ≡ ok (record x {
                    visited_states = set visited s true;
                    queue = x.queue ++ s ∷ [];
                    num_discovered = x.num_discovered + 1;
                  }) =
                ground (arith, e, e') in
              subst (Counts x) (ok-inj (sym same ∙ h)) (record {
                queued = omega (arith, length-append x.queue (s ∷ []));
                within = inl (ground (arith, e'));
              })
        ]
      ]

  Counts-trans : (x y z : Search W) → Counts x y → Counts y z → Counts x z
  Counts-trans x y z a b = record {
    queued = omega (arith, a.queued, b.queued);
    within = elim b.within [
      | inl p ↦ inl p
      | inr q ↦ elim a.within [ inl p ↦ inl (omega (arith, p, q)) | inr r ↦ inr (q ∙ r) ]
    ];
  }

  -- The machine that is made does not count.
  Counts-out :
      (x y : Search W) (out : VectorFst W) → Counts x y → Counts x (record y { fst_out = out })
  Counts-out x y out a = record { queued = a.queued; within = a.within }

  discover_all-Counts :
      (trs : List (Tr W)) (x y : Search W) → discover_all (some budget) x trs ≡ ok y → Counts x y
  unfolding discover_all
  discover_all-Counts [] x y h =
      subst (Counts x) (ok-inj h) (record { queued = refl; within = inr refl })
  discover_all-Counts (tr ∷ trs) x y h =
      let (z, e1, e2) = >>=-eq-ok (discover (some budget) x tr.nextstate) _ h in
      Counts-trans x _ y (Counts-out x z _ (discover-Counts x z tr.nextstate e1))
        (discover_all-Counts trs _ y e2)

module _ {W : Type 0} ⦃sr : Semiring W⦄ (o : FstOp W) (c : FstCache W) where
  -- The calls of a round that succeeds.
  pub record Round (max_states max_trs : Option ℕ) (fst fst' : LazyFst o c) (x y : Search W)
      (n n' s : ℕ) : Type 0 where
    pub trs : List (Tr W)
    pub fst1 : LazyFst o c
    pub found : Search W
    pub weight : Option W
    pub out : VectorFst W
    pub expands : get_trs o c fst s ≡ ok (trs, fst1)
    pub counts : count_trs max_trs n (length trs) ≡ ok n'
    pub discovers : discover_all max_states x trs ≡ ok found
    pub weighs : final_weight o c fst1 s ≡ ok (weight, fst')
    pub writes : finish_state found s trs weight ≡ ok out
    pub result : record found { fst_out = out } ≡ y

  pub visit_state-Round :
      (max_states max_trs : Option ℕ) (fst fst' : LazyFst o c) (x y : Search W) (n n' s : ℕ)
      → visit_state o c max_states max_trs fst x n s ≡ ok (fst', y, n')
      → Round max_states max_trs fst fst' x y n n' s
  unfolding visit_state
  visit_state-Round max_states max_trs fst fst' x y n n' s h =
      let ((trs, fst1), e1, e2) = >>=-eq-ok (get_trs o c fst s) _ h in
      let (m, e3, e4) = >>=-eq-ok (count_trs max_trs n (length trs)) _ e2 in
      let (z, e5, e6) = >>=-eq-ok (discover_all max_states x trs) _ e4 in
      let ((weight, fst2), e7, e8) = >>=-eq-ok (final_weight o c fst1 s) _ e6 in
      let (out, e9, e10) = >>=-eq-ok (finish_state z s trs weight) _ e8 in
      let all = ok-inj e10 in
      record {
        trs = trs;
        fst1 = fst1;
        found = z;
        weight = weight;
        out = out;
        expands = e1;
        counts = e3 ∙ ap ok (ap (λ (t : LazyFst o c × Search W × ℕ). t.2) all);
        discovers = e5;
        weighs = e7 ∙ ap (λ f. ok (weight, f)) (ap (λ (t : LazyFst o c × Search W × ℕ). t.0) all);
        writes = e9;
        result = ap (λ (t : LazyFst o c × Search W × ℕ). t.1) all;
      }

  -- A round under a budget, behind the state that it takes from the queue.
  visit-Counts :
      (budget : ℕ) (max_trs : Option ℕ) (fst fst' : LazyFst o c) (x y : Search W) (n n' s : ℕ)
      → visit_state o c (some budget) max_trs fst x n s ≡ ok (fst', y, n')
      → Counts budget x y
  visit-Counts budget max_trs fst fst' x y n n' s h =
      let r = visit_state-Round (some budget) max_trs fst fst' x y n n' s h in
      subst (Counts budget x) r.result
        (Counts-out budget x r.found r.out (discover_all-Counts budget r.trs x r.found r.discovers))

  -- With fuel for the budget and the queue, the search ends.
  search_ends :
      (fuel budget : ℕ) (max_trs : Option ℕ) (fst : LazyFst o c) (x : Search W) (n : ℕ)
      → x.num_discovered ≤ suc budget
      → suc budget + length x.queue < fuel + x.num_discovered
      → (r : _) × (search_states o c fuel (some budget) max_trs fst x n ≡ some r)
  unfolding search_states
  search_ends zero budget max_trs fst x n le lt = absurd (omega (arith, le, lt))
  search_ends (suc fuel) budget max_trs fst x n le lt = elim (List-cases x.queue) [
    | inl e ↦ (ok (fst, x.fst_out), ground (arith, e))
    | inr (s, queue, e) ↦
        let x' : Search W = record x { queue = queue } in
        elim (Result-cases (visit_state o c (some budget) max_trs fst x' n s)) [
          | inl (failure, v) ↦ (err failure, ground (arith, e, v))
          | inr ((fst', y, n'), v) ↦
              let k = visit-Counts budget max_trs fst fst' x' y n n' s v in
              let size : length x.queue ≡ suc (length queue) = ap length e in
              let le' : y.num_discovered ≤ suc budget = ground (arith, k.within, le) in
              let (r, found) =
                search_ends fuel budget max_trs fst' y n' le' (omega (arith, k.queued, size, lt)) in
              (r, ground (arith, e, v, found))
        ]
  ]

  -- Under a budget of states, `compute_bounded` ends, with a machine or with a failure, whatever the
  -- operation and the cache do: a search of two rounds more than the budget is enough.
  pub compute_bounded_ends :
      (budget fuel : ℕ) (max_trs : Option ℕ) (fst : LazyFst o c)
      → budget + 2 ≤ fuel
      → (r : Result (VectorFst W)) × (compute_bounded o c fuel (some budget) max_trs fst ≡ some r)
  unfolding compute_bounded
  compute_bounded_ends budget fuel max_trs fst le = elim (Result-cases (start o c fst)) [
    | inl (x, e) ↦ (err x, ground (arith, e))
    | inr ((s?, fst1), e) ↦ elim (Option-cases s?) [
      | inl none_yet ↦ (ok new, ground (arith, e, none_yet))
      | inr (s, at) ↦ elim (Result-cases (set_start {W = W} (add_states new (s + 1)) s)) [
        | inl (x, e') ↦ (err x, ground (arith, e, at, e'))
        | inr (out, e') ↦
            let (r, found) =
              search_ends fuel budget max_trs fst1 (search_start s out) 0 (omega arith)
                (omega arith) in
            elim (Result-cases r) [
              | inl (x, q) ↦ (err x, ground (arith, e, at, e', found, q))
              | inr ((fst2, made), q) ↦ (
                ok (set_properties made (o.properties fst2.op)),
                ground (arith, e, at, e', found, q),
              )
            ]
      ]
    ]
  ]
