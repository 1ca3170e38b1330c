-- ===== src/Weights/Strings/Divide.antt =====
-- Division of string weights.
use rustfst.Base.{
  ℕ, ◌≡◌, refl, ap, ◌∙◌, List, [], ◌∷◌, ◌++◌, reverse, drop, length, length-append, ok, arith,
}
use mathlib.Core.List.{reverse-append, reverse-reverse}
use rustfst.Weights.{divide_left, divide_right}
use rustfst.Weights.Strings.{
  StringWeightVariant, infinity, labels, string_restrict, string_left, string_right, common_prefix,
  string_times, string_divide, left_quotient, right_quotient, string_plus,
}

drop-append : (xs ys : List ℕ) → drop (length xs) (xs ++ ys) ≡ ys
drop-append [] ys = refl
drop-append (x ∷ xs) ys = drop-append xs ys

length-reverse : (xs : List ℕ) → length (reverse xs) ≡ length xs
length-reverse [] = refl
length-reverse (x ∷ xs) =
    ap length (reverse-append (x ∷ []) xs)
    ∙ omega (arith, length-append (reverse xs) (x ∷ []), length-reverse xs)

drop-reverse : (xs ys : List ℕ) → reverse (drop (length ys) (reverse (xs ++ ys))) ≡ xs
drop-reverse xs ys =
    rw (reverse-append xs ys, ← length-reverse ys, drop-append (reverse ys) (reverse xs))
      (reverse-reverse xs)

-- A left quotient by a factor of labels undoes the product on the left, with the weights that allow
-- left division, and a right quotient undoes it on the right.
pub string_divide-times :
    (a : StringWeightVariant) (ys : List ℕ)
    → (string_divide string_left (string_times (labels ys) a) (labels ys) divide_left ≡ ok a)
      × (string_divide string_restrict (string_times (labels ys) a) (labels ys) divide_left ≡ ok a)
      × (string_divide string_right (string_times a (labels ys)) (labels ys) divide_right ≡ ok a)
      × (string_divide string_restrict (string_times a (labels ys)) (labels ys) divide_right ≡ ok a)
unfolding string_divide left_quotient right_quotient string_times
string_divide-times infinity ys = (refl, refl, refl, refl)
string_divide-times (labels xs) ys =
    let left : ok (labels (drop (length ys) (ys ++ xs))) ≡ ok (labels xs) =
      ap (λ l. ok (labels l)) (drop-append ys xs) in
    let right : ok (labels (reverse (drop (length ys) (reverse (xs ++ ys))))) ≡ ok (labels xs) =
      ap (λ l. ok (labels l)) (drop-reverse xs ys) in
    (left, left, right, right)

prefix_rest : (xs ys : List ℕ) → common_prefix xs ys ++ drop (length (common_prefix xs ys)) xs ≡ xs
unfolding common_prefix
prefix_rest [] ys = refl
prefix_rest (x ∷ xs) [] = refl
prefix_rest (x ∷ xs) (y ∷ ys) = ground (arith, prefix_rest xs ys)

-- The left string weight is weakly divisible: a summand is the sum times its left quotient by the
-- sum, whenever the sum is not zero.
pub left_weakly_divisible :
    (a b : StringWeightVariant) (s : List ℕ)
    → string_plus string_left a b ≡ ok (labels s)
    → (z : StringWeightVariant) × (string_divide string_left a (labels s) divide_left ≡ ok z)
      × (string_times (labels s) z ≡ a)
unfolding string_divide left_quotient string_times string_plus
left_weakly_divisible infinity b s h = (infinity, refl, refl)
left_weakly_divisible (labels xs) infinity s h =
    (labels (drop (length s) xs), refl, ground (arith, drop-append xs [], whole xs))
  where
    whole : (l : List ℕ) → l ++ drop (length l) l ≡ l
    whole [] = refl
    whole (x ∷ l) = ap (◌∷◌ x) (whole l)
left_weakly_divisible (labels xs) (labels ys) s h =
    (labels (drop (length s) xs), refl, ground (arith, prefix_rest xs ys))
