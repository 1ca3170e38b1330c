-- ===== src/Base/Results.antt =====
-- `anyhow::Result`, with the failures that the modelled code raises; a panic is one more failure.
use Prim.Native.Nat.{ℕ}
use mathlib.Core.Path.{◌≡◌, refl}
use mathlib.Core.Logic.{◌⊎◌, inl, inr}
use mathlib.Core.List.{List}
use mathlib.Core.Option.{none, some}
use rustfst.Base.Lists.{get_elem?}

pub data Error : Type 0 where
  no_state : ℕ → Error
  non_functional division_by_zero wrong_division iteration_over unsupported panic state_budget
        tr_limit :
      Error

pub data Result {ℓ} (T : Type ℓ) : Type ℓ where
  err : Error → Result T
  ok : T → Result T

-- The operator `?`: what follows runs on a success.
module _ {ℓ κ} {T : Type ℓ} {U : Type κ} where
  infixl 5 ◌>>=◌
  abbrev pub ◌>>=◌ : Result T → (T → Result U) → Result U
  err failure >>= _ = err failure
  ok value >>= use_value = use_value value

  -- The two successes behind a success.
  pub >>=-eq-ok :
      (first : Result T) (use_value : T → Result U) {u : U}
      → first >>= use_value ≡ ok u
      → (value : T) × (first ≡ ok value) × (use_value value ≡ ok u)
  >>=-eq-ok (err failure) use_value h = cc
  >>=-eq-ok (ok value) use_value h = (value, refl, h)

pub Result-cases {ℓ} :
    {T : Type ℓ} (result : Result T)
    → ((failure : Error) × (result ≡ err failure)) ⊎ ((value : T) × (result ≡ ok value))
Result-cases (err failure) = inl (failure, refl)
Result-cases (ok value) = inr (value, refl)

pub ok-inj : {A : Type 0} {a b : A} → ok a ≡ ok b → a ≡ b
ok-inj h = cc

-- `v[i]`, which panics out of range.
abbrev pub index {ℓ} : {A : Type ℓ} → List A → ℕ → Result A
index l i = elim (get_elem? l i) [ none ↦ err panic | some x ↦ ok x ]
