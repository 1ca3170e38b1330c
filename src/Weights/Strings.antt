-- ===== src/Weights/Strings.antt =====
-- string_weight.rs and string_variant.rs: `string_semiring!`, once for each `StringType`.
pub mod Prefix
pub mod Laws
pub mod Divide
use rustfst.Base.{
  ℕ, ◌==◌, if◌then◌else◌, Bool, true, false, ◌&&◌, List, [], ◌∷◌, ◌++◌, map, reverse, drop, Result,
  ok, err, non_functional, wrong_division, panic, length,
}
use rustfst.Weights.{
  Semiring, SemiringProperties, left_semiring, right_semiring, commutative, idempotent, path,
  DivideType, divide_left, divide_right, divide_any,
}

pub data StringWeightVariant : Type 0 where
  infinity : StringWeightVariant
  labels : List ℕ → StringWeightVariant

pub data StringType : Type 0 where
  string_restrict string_left string_right : StringType

abbrev pub same_labels : List ℕ → List ℕ → Bool
same_labels [] [] = true
same_labels (x ∷ xs) (y ∷ ys) = x == y && same_labels xs ys
same_labels _ _ = false

abbrev pub same_variant : StringWeightVariant → StringWeightVariant → Bool
same_variant infinity infinity = true
same_variant (labels xs) (labels ys) = same_labels xs ys
same_variant _ _ = false

-- `l1.iter().zip(l2.iter()).take_while(|(v1, v2)| v1 == v2).map(|(v1, _)| v1)`
unfoldable pub common_prefix : List ℕ → List ℕ → List ℕ
common_prefix (x ∷ xs) (y ∷ ys) = if x == y then x ∷ common_prefix xs ys else []
common_prefix _ _ = []

-- The same over the reversed iterators, collected and reversed again.
unfoldable pub common_suffix : List ℕ → List ℕ → List ℕ
common_suffix xs ys = reverse (common_prefix (reverse xs) (reverse ys))

-- The branch of `plus_assign` in which both sides hold labels.
unfoldable pub plus_labels : StringType → List ℕ → List ℕ → Result StringWeightVariant
plus_labels string_restrict xs ys = if same_labels xs ys then ok (labels xs) else err non_functional
plus_labels string_left xs ys = ok (labels (common_prefix xs ys))
plus_labels string_right xs ys = ok (labels (common_suffix xs ys))

unfoldable pub string_plus :
    StringType → StringWeightVariant → StringWeightVariant → Result StringWeightVariant
unfolding plus_labels
string_plus t infinity w = ok w
string_plus t (labels xs) infinity = ok (labels xs)
string_plus t (labels xs) (labels ys) = plus_labels t xs ys

unfoldable pub string_times : StringWeightVariant → StringWeightVariant → StringWeightVariant
string_times (labels xs) (labels ys) = labels (xs ++ ys)
string_times (labels xs) infinity = infinity
string_times infinity w = infinity

unfoldable pub string_reverse : StringWeightVariant → StringWeightVariant
string_reverse infinity = infinity
string_reverse (labels xs) = labels (reverse xs)

abbrev pub string_properties : StringType → SemiringProperties
string_properties string_restrict left_semiring = true
string_properties string_restrict right_semiring = true
string_properties string_restrict idempotent = true
string_properties string_left left_semiring = true
string_properties string_left idempotent = true
string_properties string_right right_semiring = true
string_properties string_right idempotent = true
string_properties _ _ = false

abbrev pub string_weight : StringType → Semiring StringWeightVariant
string_weight t = record {
  zero = infinity;
  one = labels [];
  plus = string_plus t;
  times = λ a b. ok (string_times a b);
  equals = same_variant;
  properties = string_properties t;
}

-- The type of the reversed weights.
abbrev pub reverse_type : StringType → StringType
reverse_type string_restrict = string_restrict
reverse_type string_left = string_right
reverse_type string_right = string_left

-- The free functions `divide_left` and `divide_right`.
unfoldable pub left_quotient :
    StringWeightVariant → StringWeightVariant → Result StringWeightVariant
left_quotient infinity infinity = err panic
left_quotient infinity (labels ys) = ok infinity
left_quotient (labels xs) infinity = err panic
left_quotient (labels xs) (labels ys) = ok (labels (drop (length ys) xs))

unfoldable pub right_quotient :
    StringWeightVariant → StringWeightVariant → Result StringWeightVariant
right_quotient infinity infinity = err panic
right_quotient infinity (labels ys) = ok infinity
right_quotient (labels xs) infinity = err panic
right_quotient (labels xs) (labels ys) = ok (labels (reverse (drop (length ys) (reverse xs))))

-- `divide_assign`.
unfoldable pub string_divide :
    StringType → StringWeightVariant → StringWeightVariant → DivideType → Result StringWeightVariant
string_divide string_left a b divide_left = left_quotient a b
string_divide string_left a b _ = err wrong_division
string_divide string_right a b divide_right = right_quotient a b
string_divide string_right a b _ = err wrong_division
string_divide string_restrict a b divide_left = left_quotient a b
string_divide string_restrict a b divide_right = right_quotient a b
string_divide string_restrict a b divide_any = err wrong_division
