-- ===== src/Base/Tests.antt =====
-- Boolean tests on the native numbers, the conditional, case lemmas and the u32 conversion.
use Prim.Native.Nat.{ℕ, ◌-◌, ◌≤◌, ◌<◌, ◌^◌, ◌%◌, compare, Ordering}
use mathlib.Core.Path.{◌≡◌, refl}
use mathlib.Core.Logic.{◌↔◌, ◌⊎◌, inl, inr}
use mathlib.Core.Bool.{Bool, true, false}
use mathlib.Core.Option.{Option, none, some}
use native.Mathlib.Omega.{arith}

abbrev pub ltb : ℕ → ℕ → Bool
ltb a b = elim (compare a b) [ Ordering.lt ↦ true | _ ↦ false ]

abbrev pub leb : ℕ → ℕ → Bool
leb a b = elim (compare a b) [ Ordering.gt ↦ false | _ ↦ true ]

infix 50 ◌==◌
abbrev pub ◌==◌ : ℕ → ℕ → Bool
a == b = elim (compare a b) [ Ordering.eq ↦ true | _ ↦ false ]

infix 1 if◌then◌else◌
abbrev pub if◌then◌else◌ {ℓ} : {A : Type ℓ} → Bool → A → A → A
if true then x else y = x
if false then x else y = y

pub ==_iff : (a b : ℕ) → ((a == b) ≡ true) ↔ (a ≡ b)
==_iff a b = ground arith

pub ltb-true_iff : (a b : ℕ) → (ltb a b ≡ true) ↔ (a < b)
ltb-true_iff a b = ground arith

pub ltb-false_iff : (a b : ℕ) → (ltb a b ≡ false) ↔ (b ≤ a)
ltb-false_iff a b = ground arith

-- To split on a computed value and keep the equation.
pub Bool-cases : (b : Bool) → (b ≡ true) ⊎ (b ≡ false)
Bool-cases true = inl refl
Bool-cases false = inr refl

pub Option-cases {ℓ} : {A : Type ℓ} (o : Option A) → (o ≡ none) ⊎ ((a : A) × (o ≡ some a))
Option-cases none = inl refl
Option-cases (some a) = inr (a, refl)

-- `n -= 1` of a `usize`, which wraps around below zero where overflow is not checked.
abbrev pub usize_pred : ℕ → ℕ
usize_pred n = if n == 0 then 18446744073709551615 else n - 1

-- `n as u32`.
unfoldable pub u32 : ℕ → ℕ
u32 n = n % 2 ^ 32

pub u32_small : (n : ℕ) → n < 2 ^ 32 → u32 n ≡ n
unfolding u32
u32_small n h = omega arith
