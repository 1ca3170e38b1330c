-- ===== src/Algorithms/Inversion/Paths.antt =====
-- The paths of an inverted machine.
use rustfst.Base.{ℕ, ◌≡◌, ◌↔◌, sym, subst, ◌∙◌, ok, arith, Result-cases, inl, inr}
use rustfst.Tr.{Tr}
use rustfst.Weights.{Semiring}
use rustfst.Fst.{VectorFst, TrAt}
use rustfst.Paths.{FstPath, add_to_path, add_weight, paths_iter}
use rustfst.Paths.Origin.{Run, stop, follow, Yields, NeverFails}
use rustfst.Paths.Complete.{paths_iter_lem}
use rustfst.Algorithms.Relabel.{Relabels, TrAt-relabelled, TrAt-original}
use rustfst.Algorithms.Inversion.{invert, inverted, invert-Relabels}

module _ {W : Type 0} where
  -- A path with its labels swapped.
  abbrev pub inverted_path : FstPath W → FstPath W
  inverted_path p = record p { ilabels = p.olabels; olabels = p.ilabels }

module _ {W : Type 0} ⦃sr : Semiring W⦄ where
  add_to_path-inverted :
      (p p' : FstPath W) (i o : ℕ) (w : W)
      → add_to_path p i o w ≡ ok p'
      → add_to_path (inverted_path p) o i w ≡ ok (inverted_path p')
  unfolding add_to_path
  add_to_path-inverted p p' i o w e = elim (Result-cases (sr.times p.weight w)) [
    | inl (failure, t) ↦ absurd (ground (arith, t))
    | inr (total, t) ↦ ground (arith, t)
  ]

  add_weight-inverted :
      (p p' : FstPath W) (w : W)
      → add_weight p w ≡ ok p'
      → add_weight (inverted_path p) w ≡ ok (inverted_path p')
  unfolding add_weight
  add_weight-inverted p p' w e = elim (Result-cases (sr.times p.weight w)) [
    | inl (failure, t) ↦ absurd (ground (arith, t))
    | inr (total, t) ↦ ground (arith, t)
  ]

  Run-inverted :
      {f g : VectorFst W}
      → Relabels inverted f g
      → {s : ℕ} {p done : FstPath W} → Run f s p done
      → Run g s (inverted_path p) (inverted_path done)
  Run-inverted r (stop {s} {path = p} {done} w at add) =
      stop w (r.finals s ∙ at) (add_weight-inverted p done w add)
  Run-inverted r (follow {s} {path = p} {path' = p'} i tr at add run) =
      follow i (inverted tr) (TrAt-relabelled r s i tr at)
        (add_to_path-inverted p p' tr.ilabel tr.olabel tr.weight add) (Run-inverted r run)

  Run-original :
      {f g : VectorFst W}
      → Relabels inverted f g
      → {s : ℕ} {p done : FstPath W} → Run g s p done
      → Run f s (inverted_path p) (inverted_path done)
  Run-original r (stop {s} {path = p} {done} w at add) =
      stop w (sym (r.finals s) ∙ at) (add_weight-inverted p done w add)
  Run-original {f} r (follow {s} {path = p} {path' = p'} i tr at add run) =
      let (a, at', q) = TrAt-original r s i tr at in
      let at'' : TrAt f s i (inverted tr) = subst (λ (t : Tr W). TrAt f s i (inverted t)) q at' in
      follow i (inverted tr) at'' (add_to_path-inverted p p' tr.ilabel tr.olabel tr.weight add)
        (Run-original r run)

  -- With products that do not fail, the paths of an inverted machine are the paths of the machine with
  -- input and output labels swapped and the same weights, as the iterator returns them.
  pub invert_paths_lem :
      (f : VectorFst W) (done : FstPath W)
      → NeverFails sr
      → Yields (invert f) (paths_iter (invert f)) done
        ↔ Yields f (paths_iter f) (inverted_path done)
  invert_paths_lem f done total =
      let r = invert-Relabels f in
      let here = paths_iter_lem f total (inverted_path done) in
      let there = paths_iter_lem (invert f) total done in
      (
        λ y. let (s, e, run) = there.0 y in here.1 (s, sym r.start ∙ e, Run-original r run),
        λ y. let (s, e, run) = here.0 y in there.1 (s, r.start ∙ e, Run-inverted r run),
      )
