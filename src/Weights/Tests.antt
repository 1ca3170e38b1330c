-- ===== src/Weights/Tests.antt =====
-- The weights at concrete values.
use rustfst.Base.{
  ℕ, ◌+◌, ◌≡◌, refl, ◌↔◌, Bool, true, false, ltb, [], ◌∷◌, Option, none, some, ok, err,
  non_functional, arith,
}
use rustfst.Weights.{is_zero, left_semiring, divide_left, divide_right}
use rustfst.Weights.Laws.{IsNearSemiring, IsSemiring, IsAsDeclared}
use rustfst.Weights.Plain.{boolean_weight, boolean-IsSemiring, boolean-IsAsDeclared}
use rustfst.Weights.Tropical.{Float, tropical_plus, tropical_times, tropical_weight, tropical_laws}
use rustfst.Weights.Strings.{
  StringWeightVariant, labels, string_restrict, string_left, string_right, string_weight,
  string_plus, string_times, string_reverse, string_divide, common_prefix,
}
use rustfst.Weights.Strings.Laws.{
  Distributes, string_weight_lem, string-IsAsDeclared, string_reverse_lem,
}
use rustfst.Weights.Strings.Divide.{string_divide-times, left_weakly_divisible}
use rustfst.Weights.Product.{product_weight, product-IsSemiring, product-IsAsDeclared}

abbrev abc : StringWeightVariant
abc = labels (1 ∷ 2 ∷ 3 ∷ [])

abbrev abd : StringWeightVariant
abd = labels (1 ∷ 2 ∷ 4 ∷ [])

abbrev ab : StringWeightVariant
ab = labels (1 ∷ 2 ∷ [])

plus-left : string_plus string_left abc abd ≡ ok ab
unfolding string_plus common_prefix
plus-left = refl

plus-restrict : string_plus string_restrict abc abd ≡ err non_functional
unfolding string_plus
plus-restrict = refl

string_weight_example : IsNearSemiring (string_weight string_right) × Distributes string_right
string_weight_example = string_weight_lem string_right

-- 5 · (12 ⊕ …) for the left weight.
string-IsAsDeclared_example :
    ok (string_times (labels (5 ∷ [])) ab)
    ≡ string_plus string_left
        (string_times (labels (5 ∷ [])) abc)
        (string_times (labels (5 ∷ [])) abd)
string-IsAsDeclared_example =
    string-IsAsDeclared string_left left_semiring refl abc abd (labels (5 ∷ [])) ab
      (string_times (labels (5 ∷ [])) abc) (string_times (labels (5 ∷ [])) abd) plus-left refl refl

string_reverse_example :
    (string_plus string_right (string_reverse abc) (string_reverse abd) ≡ ok (string_reverse ab))
    × (string_reverse (string_times abc abd)
        ≡ string_times (string_reverse abd) (string_reverse abc))
    × (string_reverse (string_reverse abc) ≡ abc)
string_reverse_example = string_reverse_lem string_left abc abd ab plus-left

string_divide-times_example :
    (string_divide string_left (string_times ab abc) ab divide_left ≡ ok abc)
    × (string_divide string_restrict (string_times ab abc) ab divide_left ≡ ok abc)
    × (string_divide string_right (string_times abc ab) ab divide_right ≡ ok abc)
    × (string_divide string_restrict (string_times abc ab) ab divide_right ≡ ok abc)
string_divide-times_example = string_divide-times abc (1 ∷ 2 ∷ [])

left_weakly_divisible_example :
    (z : StringWeightVariant) × (string_divide string_left abc ab divide_left ≡ ok z)
    × (string_times ab z ≡ abc)
left_weakly_divisible_example = left_weakly_divisible abc abd (1 ∷ 2 ∷ []) plus-left

product-IsSemiring_example :
    IsSemiring (product_weight boolean_weight (string_weight string_restrict))
product-IsSemiring_example =
    product-IsSemiring boolean_weight (string_weight string_restrict) boolean-IsSemiring
      (string_weight_lem string_restrict).1

product-IsAsDeclared_example :
    IsAsDeclared (product_weight boolean_weight (string_weight string_left))
product-IsAsDeclared_example =
    product-IsAsDeclared boolean_weight (string_weight string_left) boolean-IsAsDeclared
      (string-IsAsDeclared string_left)

-- Whole numbers with infinity stand in for the machine's floats.
abbrev Cost : Type 0
Cost = Option ℕ

abbrev cost_lt : Cost → Cost → Bool
cost_lt (some a) (some b) = ltb a b
cost_lt (some a) none = true
cost_lt none b = false

abbrev cost_add : Cost → Cost → Cost
cost_add (some a) (some b) = some (a + b)
cost_add _ _ = none

abbrev cost_is_inf : Cost → Bool
cost_is_inf none = true
cost_is_inf (some a) = false

cost_lt_asymm : (a b : Cost) → cost_lt a b ≡ true → cost_lt b a ≡ false
cost_lt_asymm a b h = ground arith

cost_lt_total : (a b : Cost) → cost_lt a b ≡ false → cost_lt b a ≡ false → a ≡ b
cost_lt_total a b h k = ground arith

cost_lt_trans : (a b c : Cost) → cost_lt a b ≡ true → cost_lt b c ≡ true → cost_lt a c ≡ true
cost_lt_trans a b c h k = ground arith

cost_add_mono :
    (a b c : Cost)
    → cost_is_inf b ≡ false
    → cost_is_inf c ≡ false
    → cost_lt a b ≡ true
    → cost_lt (cost_add c b) (cost_add c a) ≡ false
cost_add_mono a b c h k l = ground arith

cost_is_inf_iff : (a : Cost) → (cost_is_inf a ≡ true) ↔ (a ≡ none)
cost_is_inf_iff a = ground arith

cost_zero-add : (a : Cost) → cost_add (some 0) a ≡ a
cost_zero-add a = ground arith

cost_add_comm :
    (a b : Cost) → cost_is_inf a ≡ false → cost_is_inf b ≡ false → cost_add a b ≡ cost_add b a
cost_add_comm a b h k = ground arith

cost_kdelta : (a : Cost) → cost_is_inf (cost_add a (some 1)) ≡ cost_is_inf a
cost_kdelta a = ground arith

abbrev whole : Float
whole = record {
  F = Cost;
  lt = cost_lt;
  is_inf = cost_is_inf;
  inf = none;
  zero = some 0;
  kdelta = some 1;
  add = cost_add;
  is_inf_iff = cost_is_inf_iff;
  lt_inf = λ a. refl;
  lt_asymm = cost_lt_asymm;
  lt_total = cost_lt_total;
  lt_trans = cost_lt_trans;
  zero-add = cost_zero-add;
  add_comm = cost_add_comm;
  add_mono = cost_add_mono;
  zero_finite = refl;
  kdelta_inf = cost_kdelta;
}

tropical_laws_example :
    ((a b : Cost) → tropical_plus whole a b ≡ tropical_plus whole b a)
    × ((a b c : Cost)
        → tropical_plus whole (tropical_plus whole a b) c
          ≡ tropical_plus whole a (tropical_plus whole b c))
    × ((a : Cost) → tropical_plus whole none a ≡ a)
    × ((a : Cost) → tropical_times whole (some 0) a ≡ a)
    × ((a : Cost) → tropical_times whole none a ≡ none)
    × IsAsDeclared (tropical_weight whole)
    × ((a : Cost) → (is_zero ⦃s = tropical_weight whole⦄ a ≡ true) ↔ (a ≡ none))
tropical_laws_example = tropical_laws whole
