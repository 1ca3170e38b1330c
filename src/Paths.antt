-- ===== src/Paths.antt =====
-- rustfst/src/fst_path.rs and fst_traits/paths_iterator.rs: the paths of a machine, breadth first.
pub mod Origin
pub mod Complete
pub mod Tests
use rustfst.Base.{
  ℕ, zero, suc, ◌==◌, if◌then◌else◌, Bool, ◌&&◌, List, [], ◌∷◌, ◌++◌, Option, none, some, Result,
  ok, err, ◌>>=◌, ◌≡◌, ◌⊎◌,
}
use rustfst.Tr.{Tr, eps_label}
use rustfst.Weights.{Semiring, is_one}
use rustfst.Fst.{VectorFst, trs_of, final_of, TrAt}

pub record FstPath {ℓ} (W : Type ℓ) : Type ℓ where
  pub ilabels : List ℕ
  pub olabels : List ℕ
  pub weight : W

-- The queue of `PathsIterator`: states with the paths that lead there.
abbrev pub Queue {ℓ} : Type ℓ → Type ℓ
Queue W = List (ℕ × FstPath W)

module _ {ℓ} {W : Type ℓ} ⦃sr : Semiring W⦄ where
  -- `FstPath::default`
  abbrev pub default : FstPath W
  default = record { ilabels = []; olabels = []; weight = sr.one }

  unfoldable pub add_to_path : FstPath W → ℕ → ℕ → W → Result (FstPath W)
  add_to_path path ilabel olabel weight = sr.times path.weight weight >>= λ total. ok (record {
    ilabels = if ilabel == eps_label then path.ilabels else path.ilabels ++ ilabel ∷ [];
    olabels = if olabel == eps_label then path.olabels else path.olabels ++ olabel ∷ [];
    weight = total;
  })

  unfoldable pub add_weight : FstPath W → W → Result (FstPath W)
  add_weight path weight =
      sr.times path.weight weight >>= λ total. ok (record path { weight = total })

  unfoldable pub concat : FstPath W → FstPath W → Result (FstPath W)
  concat path other = sr.times path.weight other.weight >>= λ total. ok (record {
    ilabels = path.ilabels ++ other.ilabels;
    olabels = path.olabels ++ other.olabels;
    weight = total;
  })

  -- `PathsIterator::new`
  unfoldable pub paths_iter : VectorFst W → Queue W
  paths_iter f = elim f.start_state [ none ↦ [] | some start ↦ (start, default) ∷ [] ]

  -- The loop over the transitions of a state: what it pushes. A failing product panics (`expect`).
  unfoldable pub extensions : FstPath W → List (Tr W) → Result (Queue W)
  extensions path [] = ok []
  extensions path (tr ∷ trs) = add_to_path path tr.ilabel tr.olabel tr.weight >>= λ new_path.
      extensions path trs >>= λ rest. ok ((tr.nextstate, new_path) ∷ rest)

  -- The path with the final weight of its state, if that is final.
  unfoldable pub finished : FstPath W → Option W → Result (Option (FstPath W))
  finished path none = ok none
  finished path (some weight) = add_weight path weight >>= λ done. ok (some done)

  -- One round of the loop in `next`: the queue behind the popped state, and the path to return.
  unfoldable pub visit :
      VectorFst W → ℕ → FstPath W → Queue W → Result (Queue W × Option (FstPath W))
  unfolding extensions finished
  visit f state_id path queue = extensions path (trs_of f state_id) >>= λ new_paths.
      finished path (final_of f state_id) >>= λ done. ok (queue ++ new_paths, done)

  -- `next` with fuel for its loop, which need not end on a machine with cycles: the path, and the queue
  -- that is left.
  unfoldable pub next : VectorFst W → ℕ → Queue W → Option (Result (Option (FstPath W) × Queue W))
  unfolding visit
  next f zero queue = none
  next f (suc fuel) [] = some (ok (none, []))
  next f (suc fuel) ((state_id, path) ∷ queue) = elim (visit f state_id path queue) [
    | err e ↦ some (err e)
    | ok (queue', some done) ↦ some (ok (some done, queue'))
    | ok (queue', none) ↦ next f fuel queue'
  ]
