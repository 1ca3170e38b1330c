-- ===== src/Lazy/Compute/Budgets.antt =====
-- lazy_fst.rs: a budget that is not exceeded does not change what `compute_bounded` makes.
use rustfst.Base.{
  ℕ, zero, suc, ◌+◌, ◌≡◌, inl, inr, ap, ◌∙◌, List, [], ◌∷◌, Option, none, some, ok, >>=-eq-ok,
  Result-cases, Bool-cases, Option-cases, List-cases, arith,
}
use rustfst.Tr.{Tr}
use rustfst.Weights.{Semiring}
use rustfst.Fst.{VectorFst}
use rustfst.Fst.Mutate.{new, add_states, set_start}
use rustfst.Lazy.Cache.{FstCache}
use rustfst.Lazy.LazyFst.{FstOp, LazyFst, start}
use rustfst.Lazy.Compute.{
  Search, seen, widened, over, discover, discover_all, count_trs, visit_state, search_states,
  search_start, compute_bounded,
}
use rustfst.Lazy.Compute.Rounds.{visit_state-Round}

module _ {W : Type 0} where
  discover-free :
      (max_states : Option ℕ) (x y : Search W) (s : ℕ)
      → discover max_states x s ≡ ok y
      → discover none x s ≡ ok y
  unfolding discover
  discover-free max_states x y s h = elim (Bool-cases (seen (widened x.visited_states s) s)) [
    | inl e ↦ ground (arith, e, h)
    | inr e ↦ elim (Bool-cases (over max_states (x.num_discovered + 1))) [
      | inl e' ↦ absurd (ground (arith, e, e', h))
      | inr e' ↦ ground (arith, e, e', h)
    ]
  ]

  discover_all-free :
      (max_states : Option ℕ) (trs : List (Tr W)) (x y : Search W)
      → discover_all max_states x trs ≡ ok y
      → discover_all none x trs ≡ ok y
  unfolding discover_all
  discover_all-free max_states [] x y h = h
  discover_all-free max_states (tr ∷ trs) x y h =
      let (z, e1, e2) = >>=-eq-ok (discover max_states x tr.nextstate) _ h in
      let found : discover none x tr.nextstate ≡ ok z =
        discover-free max_states x z tr.nextstate e1 in
      ground (arith, found, discover_all-free max_states trs _ y e2)

module _ {W : Type 0} ⦃sr : Semiring W⦄ (o : FstOp W) (c : FstCache W) where
  visit_state-free :
      (max_states max_trs : Option ℕ) (fst fst' : LazyFst o c) (x y : Search W) (n n' s k : ℕ)
      → visit_state o c max_states max_trs fst x n s ≡ ok (fst', y, n')
      → visit_state o c none none fst x k s ≡ ok (fst', y, k)
  unfolding visit_state count_trs
  visit_state-free max_states max_trs fst fst' x y n n' s k h =
      let r = visit_state-Round o c max_states max_trs fst fst' x y n n' s h in
      let found = discover_all-free max_states r.trs x r.found r.discovers in
      ground (arith, r.expands, found, r.weighs, r.writes, r.result)

  search_states-free :
      (fuel : ℕ) (max_states max_trs : Option ℕ) (fst : LazyFst o c) (x : Search W) (n k : ℕ)
      (done : LazyFst o c × VectorFst W)
      → search_states o c fuel max_states max_trs fst x n ≡ some (ok done)
      → search_states o c fuel none none fst x k ≡ some (ok done)
  unfolding search_states
  search_states-free zero max_states max_trs fst x n k done h = cc
  search_states-free (suc fuel) max_states max_trs fst x n k done h = elim (List-cases x.queue) [
    | inl e ↦ ground (arith, e, h)
    | inr (s, queue, e) ↦
        let x' : Search W = record x { queue = queue } in
        elim (Result-cases (visit_state o c max_states max_trs fst x' n s)) [
          | inl (failure, v) ↦ absurd (ground (arith, e, v, h))
          | inr ((fst', y, n'), v) ↦
              let v' = visit_state-free max_states max_trs fst fst' x' y n n' s k v in
              let rest : search_states o c fuel max_states max_trs fst' y n' ≡ some (ok done) =
                ground (arith, e, v, h) in
              ground
                (arith, e, v', search_states-free fuel max_states max_trs fst' y n' k done rest)
        ]
  ]

  -- Where `compute_bounded` makes a machine under budgets of states and of transitions, it makes the
  -- same machine without them, in as many rounds.
  pub compute_bounded_free :
      (fuel : ℕ) (max_states max_trs : Option ℕ) (fst : LazyFst o c) (made : VectorFst W)
      → compute_bounded o c fuel max_states max_trs fst ≡ some (ok made)
      → compute_bounded o c fuel none none fst ≡ some (ok made)
  unfolding compute_bounded
  compute_bounded_free fuel max_states max_trs fst made h = elim (Result-cases (start o c fst)) [
    | inl (x, e) ↦ absurd (ground (arith, e, h))
    | inr ((s?, fst1), e) ↦ elim (Option-cases s?) [
      | inl none_yet ↦ ground (arith, e, none_yet, h)
      | inr (s, at) ↦ elim (Result-cases (set_start {W = W} (add_states new (s + 1)) s)) [
        | inl (x, e') ↦ absurd (ground (arith, e, at, e', h))
        | inr (out, e') ↦
            elim (Option-cases
              (search_states o c fuel max_states max_trs fst1 (search_start s out) 0)) [
                | inl q ↦ absurd (ground (arith, e, at, e', q, h))
                | inr (r, q) ↦ elim (Result-cases r) [
                  | inl (x, p) ↦ absurd (ground (arith, e, at, e', q, p, h))
                  | inr (done, p) ↦
                      let same =
                        search_states-free fuel max_states max_trs fst1 (search_start s out) 0 0
                          done (q ∙ ap some p) in
                      ground (arith, e, at, e', q, p, h, same)
                ]
              ]
      ]
    ]
  ]
