-- ===== src/Weights.antt =====
-- rustfst/src/semirings/semiring.rs: the trait `Semiring` and the flags of `SemiringProperties`.
pub mod Laws
pub mod Plain
pub mod Tropical
pub mod Strings
pub mod Product
pub mod Tests
use rustfst.Base.{Bool, Result, not, ◌&&◌}

pub data SemiringFlag : Type 0 where
  left_semiring right_semiring commutative idempotent path : SemiringFlag

-- A set of flags is its characteristic function.
abbrev pub SemiringProperties : Type 0
SemiringProperties = SemiringFlag → Bool

-- The operations of the trait that the library's algorithms call; `equals` is `PartialEq`.
pub record Semiring {ℓ} (W : Type ℓ) : Type ℓ where
  pub zero : W
  pub one : W
  pub plus : W → W → Result W
  pub times : W → W → Result W
  pub equals : W → W → Bool
  pub properties : SemiringProperties

pub data DivideType : Type 0 where
  divide_left divide_right divide_any : DivideType

module _ {ℓ} {W : Type ℓ} ⦃s : Semiring W⦄ where
  unfoldable pub is_zero : W → Bool
  is_zero w = s.equals w s.zero

  unfoldable pub is_one : W → Bool
  is_one w = s.equals w s.one

  -- The test `!w.is_zero() && !w.is_one()` of the property code.
  unfoldable pub is_weighted : W → Bool
  unfolding is_zero is_one
  is_weighted w = not (is_zero w) && not (is_one w)
