-- ===== src/Paths/Complete.antt =====
-- The iterator on the path of a run.
use rustfst.Base.{
  ℕ, zero, suc, ◌≡◌, ◌↔◌, inl, inr, refl, sym, ap, ap₂, subst, ◌∙◌, List, [], ◌∷◌, ◌++◌, get_elem?,
  Option, none, some, Option-cases, ok, >>=-eq-ok, Result-cases, arith, ⊎_elim, ok-inj,
}
use mathlib.Core.List.{append_assoc}
use rustfst.Tr.{Tr}
use rustfst.Weights.{Semiring}
use rustfst.Fst.{VectorFst, trs_of, final_of}
use rustfst.Paths.{
  FstPath, Queue, default, add_to_path, add_weight, paths_iter, extensions, finished, visit,
}
use rustfst.Paths.Origin.{
  Run, stop, follow, Yields, now, later, NeverFails, next-returns, next-goes_on, finished-final,
  Yields-Origin,
}

module _ {W : Type 0} ⦃sr : Semiring W⦄ (f : VectorFst W) (total : NeverFails sr) where
  adds :
      (path : FstPath W) (i o : ℕ) (w : W)
      → (path' : FstPath W) × (add_to_path path i o w ≡ ok path')
  unfolding add_to_path
  adds path i o w =
      let (c, e) = total path.weight w in
      elim (Result-cases (add_to_path path i o w)) [
        | inl (failure, e') ↦ absurd (ground (arith, e, e'))
        | inr done ↦ done
      ]

  extends :
      (path : FstPath W) (trs : List (Tr W)) → (new : Queue W) × (extensions path trs ≡ ok new)
  unfolding extensions
  extends path [] = ([], refl)
  extends path (tr ∷ trs) =
      let (path', e) = adds path tr.ilabel tr.olabel tr.weight in
      let (new, e') = extends path trs in ((tr.nextstate, path') ∷ new, ground (arith, e, e'))

  finishes :
      (path : FstPath W) (w : Option W) → (out : Option (FstPath W)) × (finished path w ≡ ok out)
  unfolding finished add_weight
  finishes path none = (none, refl)
  finishes path (some w) =
      let (c, e) = total path.weight w in
      elim (Result-cases (finished path (some w))) [
        | inl (failure, e') ↦ absurd (ground (arith, e, e'))
        | inr done ↦ done
      ]

  visits :
      (s : ℕ) (path : FstPath W) (queue : Queue W)
      → (new : Queue W) × (out : Option (FstPath W)) × (extensions path (trs_of f s) ≡ ok new)
        × (finished path (final_of f s) ≡ ok out)
        × (visit f s path queue ≡ ok (queue ++ new, out))
  unfolding visit
  visits s path queue =
      let (new, e) = extends path (trs_of f s) in
      let (out, e') = finishes path (final_of f s) in (new, out, e, e', ground (arith, e, e'))

  -- Behind a round, the rest of the queue and the new entries yield what they yield.
  Yields-visit :
      (s : ℕ) (path done : FstPath W) (queue queue' : Queue W) (out : Option (FstPath W))
      → visit f s path queue ≡ ok (queue', out)
      → Yields f queue' done
      → Yields f ((s, path) ∷ queue) done
  Yields-visit s path done queue queue' (some d) v y =
      later 1 (next-returns f 0 s path d queue queue' v) y
  Yields-visit s path done queue queue' none v (now fuel e) =
      now (suc fuel) (next-goes_on f fuel s path queue queue' v ∙ e)
  Yields-visit s path done queue queue' none v (later fuel e y) =
      later (suc fuel) (next-goes_on f fuel s path queue queue' v ∙ e) y

  -- The entry that a transition pushes.
  extension_of :
      (path path' : FstPath W) (trs : List (Tr W)) (new : Queue W) (i : ℕ) (tr : Tr W)
      → extensions path trs ≡ ok new
      → get_elem? trs i ≡ some tr
      → add_to_path path tr.ilabel tr.olabel tr.weight ≡ ok path'
      → (before : Queue W) × (behind : Queue W) × (new ≡ before ++ (tr.nextstate, path') ∷ behind)
  unfolding extensions
  extension_of path path' [] new i tr e at add = cc
  extension_of path path' (t ∷ trs) new zero tr e at add =
      let (p, e1, e2) = >>=-eq-ok (add_to_path path t.ilabel t.olabel t.weight) _ e in
      let (rest, e3, e4) = >>=-eq-ok (extensions path trs) _ e2 in
      let same : t ≡ tr = ground arith in
      let agree : p ≡ path' =
        ok-inj
          (sym e1 ∙ ap (λ (u : Tr W). add_to_path path u.ilabel u.olabel u.weight) same ∙ add) in
      ([], rest, sym (ok-inj e4) ∙ ap₂ (λ (u : Tr W) q. (u.nextstate, q) ∷ rest) same agree)
  extension_of path path' (t ∷ trs) new (suc i) tr e at add =
      let (p, e1, e2) = >>=-eq-ok (add_to_path path t.ilabel t.olabel t.weight) _ e in
      let (rest, e3, e4) = >>=-eq-ok (extensions path trs) _ e2 in
      let (before, behind, q) = extension_of path path' trs rest i tr e3 at add in
      ((t.nextstate, p) ∷ before, behind, sym (ok-inj e4) ∙ ap (◌∷◌ (t.nextstate, p)) q)

  -- Whatever stands before and behind an entry, the iterator returns each path of a run from it.
  Yields-Run :
      {s : ℕ} {path done : FstPath W} (run : Run f s path done) (before behind : Queue W)
      → Yields f (before ++ (s, path) ∷ behind) done
  Yields-Run {s} {path} {done} run ((t, p) ∷ before) behind =
      let queue = before ++ (s, path) ∷ behind in
      let (new, out, e, e', v) = visits t p queue in
      let same : queue ++ new ≡ before ++ (s, path) ∷ (behind ++ new) =
        append_assoc before ((s, path) ∷ behind) new in
      Yields-visit t p done queue (queue ++ new) out v (
        subst (λ (q : Queue W). Yields f q done) (sym same) (Yields-Run run before (behind ++ new)))
  Yields-Run {s} {path} {done} (stop w at add) [] behind =
      let (new, out, e, e', v) = visits s path behind in
      let found : out ≡ some done = ok-inj (sym e' ∙ finished-final f path done w _ at add) in
      now 1 (
        next-returns f 0 s path done behind (behind ++ new)
          (v ∙ ap (λ d. ok (behind ++ new, d)) found))
  Yields-Run {s} {path} {done} (follow i tr at add run) [] behind =
      let (new, out, e, e', v) = visits s path behind in
      let (before, rest, q) = extension_of path _ (trs_of f s) new i tr e at add in
      let same : behind ++ new ≡ (behind ++ before) ++ (tr.nextstate, _) ∷ rest =
        ap (λ r. behind ++ r) q ∙ sym (append_assoc behind before _) in
      Yields-visit s path done behind (behind ++ new) out v (
        subst (λ (r : Queue W). Yields f r done) (sym same)
          (Yields-Run run (behind ++ before) rest))

  -- With products that do not fail, the iterator over the paths of a machine returns exactly the
  -- paths of the walks from the start state to a final state: each after finitely many calls of
  -- `next`, also on a machine with cycles, and no other.
  pub paths_iter_lem :
      (done : FstPath W)
      → Yields f (paths_iter f) done
        ↔ ((start : ℕ) × (f.start_state ≡ some start) × Run f start default done)
  unfolding paths_iter
  paths_iter_lem done = elim (Option-cases f.start_state) [
    | inl e ↦
        let empty : paths_iter f ≡ [] = ground (arith, e) in
        (
          λ y. absurd (Yields-Origin f [] done (subst (λ (q : Queue W). Yields f q done) empty y)),
          λ (start, k, run). absurd (ground (arith, e, k)),
        )
    | inr (start, e) ↦
        let single : paths_iter f ≡ (start, default) ∷ [] = ground (arith, e) in
        (
          λ y.
              ⊎_elim (λ run. (start, e, run)) (λ none_left. absurd none_left)
                (Yields-Origin f ((start, default) ∷ []) done
                  (subst (λ (q : Queue W). Yields f q done) single y)),
          λ (start', k, run).
              let same : start' ≡ start = ground (arith, e, k) in
              subst (λ (q : Queue W). Yields f q done) (sym single)
                (Yields-Run (subst (λ (s : ℕ). Run f s default done) same run) [] []),
        )
  ]
