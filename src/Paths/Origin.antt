-- ===== src/Paths/Origin.antt =====
-- Runs of a machine, and where the paths that the iterator returns come from.
use rustfst.Base.{
  ℕ, zero, suc, ◌≡◌, ◌⊎◌, inl, inr, refl, sym, ap, subst, ◌∙◌, List, [], ◌∷◌, ◌++◌, get_elem?,
  Option, none, some, Option-cases, Result, ok, >>=-eq-ok, Result-cases, arith, ⊎_elim, ok-inj,
}
use rustfst.Tr.{Tr}
use rustfst.Weights.{Semiring}
use rustfst.Fst.{VectorFst, trs_of, final_of, TrAt}
use rustfst.Paths.{FstPath, Queue, add_to_path, add_weight, extensions, finished, visit, next}

-- A walk from a state to a final state, and what `add_to_path` along it and `add_weight` at its end
-- make of a path.
pub data Run {W : Type 0} ⦃sr : Semiring W⦄ (f : VectorFst W)
    : ℕ → FstPath W → FstPath W → Type 0 where
  stop :
      {s : ℕ} {path done : FstPath W} (w : W)
      → final_of f s ≡ some w
      → add_weight path w ≡ ok done
      → Run f s path done
  follow :
      {s : ℕ} {path path' done : FstPath W} (i : ℕ) (tr : Tr W)
      → TrAt f s i tr
      → add_to_path path tr.ilabel tr.olabel tr.weight ≡ ok path'
      → Run f tr.nextstate path' done
      → Run f s path done

-- Some call of `next`, each given enough fuel, returns the path.
pub data Yields {W : Type 0} ⦃sr : Semiring W⦄ (f : VectorFst W)
    : Queue W → FstPath W → Type 0 where
  now :
      {queue rest : Queue W} {path : FstPath W} (fuel : ℕ)
      → next f fuel queue ≡ some (ok (some path, rest))
      → Yields f queue path
  later :
      {queue rest : Queue W} {path other : FstPath W} (fuel : ℕ)
      → next f fuel queue ≡ some (ok (some other, rest))
      → Yields f rest path
      → Yields f queue path

-- No product fails.
abbrev pub NeverFails : {W : Type 0} → Semiring W → Type 0
NeverFails {W} sr = (a b : W) → (c : _) × (sr.times a b ≡ ok c)

module _ {W : Type 0} ⦃sr : Semiring W⦄ (f : VectorFst W) where
  -- An entry of the queue from which a run makes the path.
  abbrev pub Origin : Queue W → FstPath W → Type 0
  Origin [] done = ⊥
  Origin ((s, path) ∷ queue) done = Run f s path done ⊎ Origin queue done

  Origin-append :
      (q r : Queue W) (done : FstPath W) → Origin (q ++ r) done → Origin q done ⊎ Origin r done
  Origin-append [] r done o = inr o
  Origin-append ((s, path) ∷ q) r done (inl run) = inl (inl run)
  Origin-append ((s, path) ∷ q) r done (inr o) =
      ⊎_elim (λ a. inl (inr a)) inr (Origin-append q r done o)

  -- A run from an extension follows one of the transitions.
  Origin-extensions :
      (path done : FstPath W) (trs : List (Tr W)) (new : Queue W)
      → extensions path trs ≡ ok new
      → Origin new done
      → (i : ℕ) × (tr : Tr W) × (path' : FstPath W) × (get_elem? trs i ≡ some tr)
        × (add_to_path path tr.ilabel tr.olabel tr.weight ≡ ok path')
        × Run f tr.nextstate path' done
  unfolding extensions
  Origin-extensions path done [] new e o =
      absurd (subst (λ (q : Queue W). Origin q done) (sym (ok-inj e)) o)
  Origin-extensions path done (tr ∷ trs) new e o =
      let (path', e1, e2) = >>=-eq-ok (add_to_path path tr.ilabel tr.olabel tr.weight) _ e in
      let (rest, e3, e4) = >>=-eq-ok (extensions path trs) _ e2 in
      ⊎_elim (λ run. (0, tr, path', refl, e1, run))
        (λ later_one.
          let (i, t, p, at, add, run) = Origin-extensions path done trs rest e3 later_one in
          (suc i, t, p, at, add, run))
        (subst (λ (q : Queue W). Origin q done) (sym (ok-inj e4)) o)

  visit-parts :
      (s : ℕ) (path : FstPath W) (queue queue' : Queue W) (out : Option (FstPath W))
      → visit f s path queue ≡ ok (queue', out)
      → (new : Queue W) × (extensions path (trs_of f s) ≡ ok new)
        × (finished path (final_of f s) ≡ ok out)
        × (queue ++ new ≡ queue')
  unfolding visit
  visit-parts s path queue queue' out e =
      let (new, e1, e2) = >>=-eq-ok (extensions path (trs_of f s)) _ e in
      let (end, e3, e4) = >>=-eq-ok (finished path (final_of f s)) _ e2 in
      let same : (queue ++ new, end) ≡ (queue', out) = ok-inj e4 in
      (new, e1, e3 ∙ ap ok (ap (λ p. p.1) same), ap (λ p. p.0) same)

  finished-some :
      (path done : FstPath W) (final : Option W)
      → finished path final ≡ ok (some done)
      → (w : W) × (final ≡ some w) × (add_weight path w ≡ ok done)
  unfolding finished
  finished-some path done none e = cc
  finished-some path done (some w) e =
      let (end, e1, e2) = >>=-eq-ok (add_weight path w) _ e in
      (w, refl, e1 ∙ ap ok (ground (arith, ok-inj e2)))

  pub finished-final :
      (path done : FstPath W) (w : W) (final : Option W)
      → final ≡ some w
      → add_weight path w ≡ ok done
      → finished path final ≡ ok (some done)
  unfolding finished
  finished-final path done w final at add = ground (arith, at, add)

  -- What a round leaves in the queue or returns comes from the queue before it.
  Origin-visit :
      (s : ℕ) (path done : FstPath W) (queue queue' : Queue W) (out : Option (FstPath W))
      → visit f s path queue ≡ ok (queue', out)
      → Origin queue' done ⊎ (out ≡ some done)
      → Origin ((s, path) ∷ queue) done
  Origin-visit s path done queue queue' out e (inr k) =
      let (new, e1, e2, e3) = visit-parts s path queue queue' out e in
      let (w, at, add) = finished-some path done (final_of f s) (e2 ∙ ap ok k) in
      inl (stop w at add)
  Origin-visit s path done queue queue' out e (inl o) =
      let (new, e1, e2, e3) = visit-parts s path queue queue' out e in
      ⊎_elim inr
        (λ extended.
          let (i, tr, p, at, add, run) = Origin-extensions path done (trs_of f s) new e1 extended in
          inl (follow i tr at add run))
        (Origin-append queue new done (subst (λ (q : Queue W). Origin q done) (sym e3) o))

  pub next-returns :
      (fuel s : ℕ) (path done : FstPath W) (queue queue' : Queue W)
      → visit f s path queue ≡ ok (queue', some done)
      → next f (suc fuel) ((s, path) ∷ queue) ≡ some (ok (some done, queue'))
  unfolding next
  next-returns fuel s path done queue queue' e = ground (arith, e)

  pub next-goes_on :
      (fuel s : ℕ) (path : FstPath W) (queue queue' : Queue W)
      → visit f s path queue ≡ ok (queue', none)
      → next f (suc fuel) ((s, path) ∷ queue) ≡ next f fuel queue'
  unfolding next
  next-goes_on fuel s path queue queue' e = ground (arith, e)

  Origin-next :
      (fuel : ℕ) (queue rest : Queue W) (done other : FstPath W)
      → next f fuel queue ≡ some (ok (some other, rest))
      → Origin rest done ⊎ (other ≡ done)
      → Origin queue done
  unfolding next
  Origin-next zero queue rest done other e o = cc
  Origin-next (suc fuel) [] rest done other e o = cc
  Origin-next (suc fuel) ((s, path) ∷ queue) rest done other e o =
      elim (Result-cases (visit f s path queue)) [
        | inl (failure, v) ↦ absurd (ground (arith, v))
        | inr ((queue', out), v) ↦ elim (Option-cases out) [
          | inl none_yet ↦
              let v' : visit f s path queue ≡ ok (queue', none) =
                v ∙ ap (λ d. ok (queue', d)) none_yet in
              Origin-visit s path done queue queue' none v' (
                inl (
                  Origin-next fuel queue' rest done other
                    (sym (next-goes_on fuel s path queue queue' v') ∙ e) o))
          | inr (d, found) ↦
              let v' : visit f s path queue ≡ ok (queue', some d) =
                v ∙ ap (λ d. ok (queue', d)) found in
              let here : ◌≡◌ {A = Option (Result (Option (FstPath W) × Queue W))}
                  (some (ok (some d, queue'))) (some (ok (some other, rest))) =
                sym (next-returns fuel s path d queue queue' v') ∙ e in
              let same : d ≡ other = ground arith in
              let left : queue' ≡ rest = ground arith in
              Origin-visit s path done queue queue' (some d) v' (
                ⊎_elim (λ k. inl (subst (λ (q : Queue W). Origin q done) (sym left) k))
                  (λ k. inr (ap some (same ∙ k))) o)
        ]
      ]

  pub Yields-Origin : (queue : Queue W) (done : FstPath W) → Yields f queue done → Origin queue done
  Yields-Origin queue done (now {rest} fuel e) = Origin-next fuel queue rest done done e (inr refl)
  Yields-Origin queue done (later {rest} {other} fuel e y) =
      Origin-next fuel queue rest done other e (inl (Yields-Origin rest done y))
