-- ===== src/Weights/Plain.antt =====
-- boolean_weight.rs and trivial_weight.rs.
use rustfst.Base.{
  ◌≡◌, refl, ap, ◌⊎◌, inl, inr, Bool, true, false, not, ◌&&◌, ◌||◌, Result, ok, err,
  division_by_zero, arith,
}
use rustfst.Weights.{
  Semiring, DivideType, left_semiring, right_semiring, commutative, idempotent, path,
}
use rustfst.Weights.Laws.{IsNearSemiring, IsSemiring, IsAsDeclared}

-- `PartialEq` of `bool`.
abbrev same_bool : Bool → Bool → Bool
same_bool true b = b
same_bool false b = not b

-- Boolean semiring: (|, &, false, true).
instance abbrev pub boolean_weight : Semiring Bool
boolean_weight = record {
  zero = false;
  one = true;
  plus = λ a b. ok (a || b);
  times = λ a b. ok (a && b);
  equals = same_bool;
  properties = λ _. true;
}

-- `divide_assign` by a true weight leaves the weight.
unfoldable pub boolean_divide : Bool → Bool → DivideType → Result Bool
boolean_divide a false t = err division_by_zero
boolean_divide a true t = ok a

boolean-IsNearSemiring : IsNearSemiring boolean_weight
boolean-IsNearSemiring = record {
  plus_comm = λ a b. ground arith;
  plus_assoc = λ a b c ab bc p q. ground arith;
  zero-plus = λ a. ground arith;
  times_assoc = λ a b c ab bc p q. ground arith;
  one-times = λ a. ground arith;
  times-one = λ a. ground arith;
  zero-times = λ a. ground arith;
  times-zero = λ a. ground arith;
}

pub boolean-IsAsDeclared : IsAsDeclared boolean_weight
boolean-IsAsDeclared left_semiring h = λ a b c ab ca cb p q r. ground arith
boolean-IsAsDeclared right_semiring h = λ a b c ab ac bc p q r. ground arith
boolean-IsAsDeclared commutative h = λ a b. ground arith
boolean-IsAsDeclared idempotent h = λ a. ground arith
boolean-IsAsDeclared path h = either
  where
    either : (a b : Bool) → (boolean_weight.plus a b ≡ ok a) ⊎ (boolean_weight.plus a b ≡ ok b)
    either true b = inl refl
    either false b = inr refl

pub boolean-IsSemiring : IsSemiring boolean_weight
boolean-IsSemiring = record {
  near = boolean-IsNearSemiring;
  left = boolean-IsAsDeclared left_semiring refl;
  right = boolean-IsAsDeclared right_semiring refl;
}

-- Dividing a product by its nonzero factor gives the other factor back.
pub boolean_divide-times :
    (a b : Bool) (t : DivideType) → b ≡ true → boolean_divide (a && b) b t ≡ ok a
unfolding boolean_divide
boolean_divide-times a b t h = ground arith

-- Trivial semiring: one value, which is both zero and one.
pub data TrivialWeight : Type 0 where
  trivial : TrivialWeight

instance abbrev pub trivial_weight : Semiring TrivialWeight
trivial_weight = record {
  zero = trivial;
  one = trivial;
  plus = λ a b. ok a;
  times = λ a b. ok a;
  equals = λ _ _. true;
  properties = λ _. true;
}

unfoldable pub trivial_divide : TrivialWeight → TrivialWeight → DivideType → Result TrivialWeight
trivial_divide a b t = err division_by_zero

only_trivial : (a b : TrivialWeight) → a ≡ b
only_trivial trivial trivial = refl

trivial-IsNearSemiring : IsNearSemiring trivial_weight
trivial-IsNearSemiring = record {
  plus_comm = λ a b. ap ok (only_trivial a b);
  plus_assoc = λ a b c ab bc p q. ap ok (only_trivial ab a);
  zero-plus = λ a. ap ok (only_trivial trivial a);
  times_assoc = λ a b c ab bc p q. ap ok (only_trivial ab a);
  one-times = λ a. ap ok (only_trivial trivial a);
  times-one = λ a. refl;
  zero-times = λ a. refl;
  times-zero = λ a. ap ok (only_trivial a trivial);
}

pub trivial-IsAsDeclared : IsAsDeclared trivial_weight
trivial-IsAsDeclared left_semiring h = λ a b c ab ca cb p q r. ap ok (only_trivial c ca)
trivial-IsAsDeclared right_semiring h = λ a b c ab ac bc p q r. ap ok (only_trivial ab ac)
trivial-IsAsDeclared commutative h = λ a b. ap ok (only_trivial a b)
trivial-IsAsDeclared idempotent h = λ a. refl
trivial-IsAsDeclared path h = λ a b. inl refl

pub trivial-IsSemiring : IsSemiring trivial_weight
trivial-IsSemiring = record {
  near = trivial-IsNearSemiring;
  left = trivial-IsAsDeclared left_semiring refl;
  right = trivial-IsAsDeclared right_semiring refl;
}
