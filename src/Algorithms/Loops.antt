-- ===== src/Algorithms/Loops.antt =====
-- Loops over a range of indices, `for i in 0..n`.
use rustfst.Base.{
  ℕ, zero, suc, ◌≡◌, refl, ap, ◌∙◌, List, [], ◌∷◌, length, map, get_elem?, set, none, some, arith,
}

-- The body runs at `i`, …, `i + n - 1`.
unfoldable pub for_range {ℓ} : {S : Type ℓ} → (S → ℕ → S) → ℕ → ℕ → S → S
for_range body i zero s = s
for_range body i (suc n) s = for_range body (suc i) n (body s i)

-- What every run of the body keeps, the loop keeps.
pub for_range-keeps {ℓ κ} :
    {S : Type ℓ} (body : S → ℕ → S) (P : S → Type κ)
    → ((s : S) (i : ℕ) → P s → P (body s i))
    → (i n : ℕ) (s : S) → P s
    → P (for_range body i n s)
unfolding for_range
for_range-keeps body P keeps i zero s p = p
for_range-keeps body P keeps i (suc n) s p =
    for_range-keeps body P keeps (suc i) n (body s i) (keeps s i p)

-- A view of the state on which the body acts by itself.
pub for_range-view {ℓ κ} :
    {S : Type ℓ} {T : Type κ} (body : S → ℕ → S) (body' : T → ℕ → T) (view : S → T)
    → ((s : S) (i : ℕ) → view (body s i) ≡ body' (view s) i)
    → (i n : ℕ) (s : S) → view (for_range body i n s) ≡ for_range body' i n (view s)
unfolding for_range
for_range-view body body' view acts i zero s = refl
for_range-view body body' view acts i (suc n) s =
    for_range-view body body' view acts (suc i) n (body s i)
    ∙ ap (for_range body' (suc i) n) (acts s i)

module _ {ℓ} {A : Type ℓ} (h : A → A) where
  -- One element changed, where there is one.
  unfoldable pub modify_at : List A → ℕ → List A
  modify_at [] i = []
  modify_at (a ∷ l) zero = h a ∷ l
  modify_at (a ∷ l) (suc i) = a ∷ modify_at l i

  pub modify_at-set :
      (l : List A) (i : ℕ) (a : A) → get_elem? l i ≡ some a → modify_at l i ≡ set l i (h a)
  unfolding modify_at
  modify_at-set [] i a e = cc
  modify_at-set (b ∷ l) zero a e = ground arith
  modify_at-set (b ∷ l) (suc i) a e = ap (◌∷◌ b) (modify_at-set l i a e)

  pub modify_at-none : (l : List A) (i : ℕ) → get_elem? l i ≡ none → modify_at l i ≡ l
  unfolding modify_at
  modify_at-none [] i e = refl
  modify_at-none (b ∷ l) zero e = ground arith
  modify_at-none (b ∷ l) (suc i) e = ap (◌∷◌ b) (modify_at-none l i e)

  for_range-tail :
      (i n : ℕ) (a : A) (l : List A)
      → for_range modify_at (suc i) n (a ∷ l) ≡ a ∷ for_range modify_at i n l
  unfolding for_range modify_at
  for_range-tail i zero a l = refl
  for_range-tail i (suc n) a l = for_range-tail (suc i) n a (modify_at l i)

  -- The loop over all indices changes every element.
  pub for_range-map : (l : List A) → for_range modify_at 0 (length l) l ≡ map h l
  unfolding for_range modify_at
  for_range-map [] = refl
  for_range-map (a ∷ l) = for_range-tail 0 (length l) (h a) l ∙ ap (◌∷◌ (h a)) (for_range-map l)
