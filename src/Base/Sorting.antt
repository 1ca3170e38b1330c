-- ===== src/Base/Sorting.antt =====
-- What the code relies on of the standard library's `sort`: an ordered permutation of its input.
use mathlib.Core.Path.{◌≡◌}
use mathlib.Core.Bool.{Bool, true}
use mathlib.Core.List.{List, [], ◌∷◌, Permᴰ}

module _ {ℓ} {A : Type ℓ} where
  -- Each element stands in `le` to the next.
  abbrev pub IsOrdered : (A → A → Bool) → List A → Type 0
  IsOrdered le [] = Unit
  IsOrdered le (x ∷ []) = Unit
  IsOrdered le (x ∷ y ∷ l) = (le x y ≡ true) × IsOrdered le (y ∷ l)

  pub record IsSort (le : A → A → Bool) (sort : List A → List A) : Type ℓ where
    pub ordered : (l : List A) → IsOrdered le (sort l)
    pub permutes : (l : List A) → Permᴰ (sort l) l
