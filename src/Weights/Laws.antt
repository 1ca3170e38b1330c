-- ===== src/Weights/Laws.antt =====
-- What semiring.rs documents: the laws of a semiring and the meaning of each flag. An operation may
-- fail, so a law speaks of the results that exist.
use rustfst.Base.{◌≡◌, ◌⊎◌, true, ok}
use rustfst.Weights.{
  Semiring, SemiringFlag, left_semiring, right_semiring, commutative, idempotent, path,
}

-- A semiring but for distributivity: the monoids of `plus` and `times`, and the annihilator.
pub record IsNearSemiring {ℓ} {W : Type ℓ} (s : Semiring W) : Type ℓ where
  pub plus_comm : (a b : W) → s.plus a b ≡ s.plus b a
  pub plus_assoc :
      (a b c ab bc : W) → s.plus a b ≡ ok ab → s.plus b c ≡ ok bc → s.plus ab c ≡ s.plus a bc
  pub zero-plus : (a : W) → s.plus s.zero a ≡ ok a
  pub times_assoc :
      (a b c ab bc : W) → s.times a b ≡ ok ab → s.times b c ≡ ok bc → s.times ab c ≡ s.times a bc
  pub one-times : (a : W) → s.times s.one a ≡ ok a
  pub times-one : (a : W) → s.times a s.one ≡ ok a
  pub zero-times : (a : W) → s.times s.zero a ≡ ok s.zero
  pub times-zero : (a : W) → s.times a s.zero ≡ ok s.zero

-- The comment above each flag.
abbrev pub FlagLaw {ℓ} : {W : Type ℓ} → Semiring W → SemiringFlag → Type ℓ
FlagLaw {W} s left_semiring =
    (a b c ab ca cb : W)
    → s.plus a b ≡ ok ab
    → s.times c a ≡ ok ca
    → s.times c b ≡ ok cb
    → s.times c ab ≡ s.plus ca cb
FlagLaw {W} s right_semiring =
    (a b c ab ac bc : W)
    → s.plus a b ≡ ok ab
    → s.times a c ≡ ok ac
    → s.times b c ≡ ok bc
    → s.times ab c ≡ s.plus ac bc
FlagLaw {W} s commutative = (a b : W) → s.times a b ≡ s.times b a
FlagLaw {W} s idempotent = (a : W) → s.plus a a ≡ ok a
FlagLaw {W} s path = (a b : W) → (s.plus a b ≡ ok a) ⊎ (s.plus a b ≡ ok b)

-- Every flag that `properties()` sets is true of the operations.
abbrev pub IsAsDeclared {ℓ} : {W : Type ℓ} → Semiring W → Type ℓ
IsAsDeclared s = (f : SemiringFlag) → s.properties f ≡ true → FlagLaw s f

-- A semiring as the comment above the trait defines it: `times` distributes over `plus` on both sides.
pub record IsSemiring {ℓ} {W : Type ℓ} (s : Semiring W) : Type ℓ where
  pub near : IsNearSemiring s
  pub left : FlagLaw s left_semiring
  pub right : FlagLaw s right_semiring
