-- ===== src/Weights/Strings/Laws.antt =====
-- The string weights and the laws of semirings.
use rustfst.Base.{ℕ, ◌≡◌, refl, ap, true, List, [], ◌∷◌, ◌++◌, reverse, Result, ok, arith}
use mathlib.Core.List.{append-nil, append_assoc, reverse-append, reverse-reverse}
use rustfst.Weights.{left_semiring, right_semiring, commutative, idempotent, path}
use rustfst.Weights.Laws.{IsNearSemiring, IsSemiring, FlagLaw, IsAsDeclared}
use rustfst.Weights.Strings.{
  StringWeightVariant, infinity, labels, StringType, string_restrict, string_left, string_right,
  same_labels, common_prefix, common_suffix, string_plus, string_times, string_reverse,
  string_weight, reverse_type,
}
use rustfst.Weights.Strings.Prefix.{
  same_labels_iff, common_prefix_comm, common_prefix_self, common_prefix_assoc,
  common_prefix-append, common_suffix_comm, common_suffix_self, common_suffix_assoc,
  common_suffix-append,
}

string_plus_comm :
    (t : StringType) (a b : StringWeightVariant) → string_plus t a b ≡ string_plus t b a
unfolding string_plus
string_plus_comm t infinity infinity = refl
string_plus_comm t infinity (labels ys) = refl
string_plus_comm t (labels xs) infinity = refl
string_plus_comm string_restrict (labels xs) (labels ys) =
    ground (arith, same_labels_iff xs ys, same_labels_iff ys xs)
string_plus_comm string_left (labels xs) (labels ys) = rw (common_prefix_comm xs ys)
string_plus_comm string_right (labels xs) (labels ys) = rw (common_suffix_comm xs ys)

string_plus_self : (t : StringType) (a : StringWeightVariant) → string_plus t a a ≡ ok a
unfolding string_plus
string_plus_self t infinity = refl
string_plus_self string_restrict (labels xs) = rw ((same_labels_iff xs xs).1 refl)
string_plus_self string_left (labels xs) = rw (common_prefix_self xs)
string_plus_self string_right (labels xs) = rw (common_suffix_self xs)

string_plus_assoc :
    (t : StringType) (a b c ab bc : StringWeightVariant)
    → string_plus t a b ≡ ok ab
    → string_plus t b c ≡ ok bc
    → string_plus t ab c ≡ string_plus t a bc
unfolding string_plus
string_plus_assoc t infinity b c ab bc p q = ground arith
string_plus_assoc t (labels xs) infinity c ab bc p q = ground arith
string_plus_assoc t (labels xs) (labels ys) infinity ab bc p q = ground arith
string_plus_assoc string_restrict (labels xs) (labels ys) (labels zs) ab bc p q =
    ground (arith, same_labels_iff xs ys, same_labels_iff ys zs, same_labels_iff xs zs)
string_plus_assoc string_left (labels xs) (labels ys) (labels zs) ab bc p q =
    ground (arith, common_prefix_assoc xs ys zs)
string_plus_assoc string_right (labels xs) (labels ys) (labels zs) ab bc p q =
    ground (arith, common_suffix_assoc xs ys zs)

string_times_assoc :
    (a b c : StringWeightVariant)
    → string_times (string_times a b) c ≡ string_times a (string_times b c)
unfolding string_times
string_times_assoc infinity b c = refl
string_times_assoc (labels xs) infinity c = refl
string_times_assoc (labels xs) (labels ys) infinity = refl
string_times_assoc (labels xs) (labels ys) (labels zs) = ap labels (append_assoc xs ys zs)

times_one : (a : StringWeightVariant) → string_times a (labels []) ≡ a
unfolding string_times
times_one infinity = refl
times_one (labels xs) = ap labels (append-nil xs)

one_times : (a : StringWeightVariant) → string_times (labels []) a ≡ a
unfolding string_times
one_times infinity = refl
one_times (labels xs) = refl

times_infinity : (a : StringWeightVariant) → string_times a infinity ≡ infinity
unfolding string_times
times_infinity infinity = refl
times_infinity (labels xs) = refl

string-IsNearSemiring : (t : StringType) → IsNearSemiring (string_weight t)
unfolding string_times string_plus
string-IsNearSemiring t = record {
  plus_comm = string_plus_comm t;
  plus_assoc = string_plus_assoc t;
  zero-plus = λ a. refl;
  times_assoc = λ a b c ab bc p q. ground (arith, string_times_assoc a b c);
  one-times = λ a. ap ok (one_times a);
  times-one = λ a. ap ok (times_one a);
  zero-times = λ a. refl;
  times-zero = λ a. ap ok (times_infinity a);
}

-- Sums of products with a common left factor; `t` is left or restricted.
left_law :
    (t : StringType) (a b c ab : StringWeightVariant)
    → (string_weight t).properties left_semiring ≡ true
    → string_plus t a b ≡ ok ab
    → ok (string_times c ab) ≡ string_plus t (string_times c a) (string_times c b)
unfolding string_plus string_times
left_law t a b infinity ab h p = ground arith
left_law t infinity b (labels zs) ab h p = ground arith
left_law t (labels xs) infinity (labels zs) ab h p = ground arith
left_law string_restrict (labels xs) (labels ys) (labels zs) ab h p =
    ground (arith, same_labels_iff xs ys, same_labels_iff (zs ++ xs) (zs ++ ys))
left_law string_left (labels xs) (labels ys) (labels zs) ab h p =
    ground (arith, common_prefix-append zs xs ys)
left_law string_right (labels xs) (labels ys) (labels zs) ab h p = cc

right_law :
    (t : StringType) (a b c ab : StringWeightVariant)
    → (string_weight t).properties right_semiring ≡ true
    → string_plus t a b ≡ ok ab
    → ok (string_times ab c) ≡ string_plus t (string_times a c) (string_times b c)
unfolding string_plus string_times
right_law t infinity b c ab h p = ground arith
right_law t (labels xs) infinity infinity ab h p = ground arith
right_law t (labels xs) infinity (labels zs) ab h p = ground arith
right_law string_restrict (labels xs) (labels ys) infinity ab h p =
    ground (arith, same_labels_iff xs ys)
right_law string_left (labels xs) (labels ys) infinity ab h p = ground arith
right_law string_right (labels xs) (labels ys) infinity ab h p = ground arith
right_law string_restrict (labels xs) (labels ys) (labels zs) ab h p =
    ground (arith, same_labels_iff xs ys, same_labels_iff (xs ++ zs) (ys ++ zs))
right_law string_left (labels xs) (labels ys) (labels zs) ab h p = cc
right_law string_right (labels xs) (labels ys) (labels zs) ab h p =
    ground (arith, common_suffix-append zs xs ys)

-- The flags that each string weight declares hold: left distributivity for the left and the
-- restricted weight, right distributivity for the right and the restricted one, idempotence for all.
pub string-IsAsDeclared : (t : StringType) → IsAsDeclared (string_weight t)
string-IsAsDeclared t left_semiring h =
    λ a b c ab ca cb p q r. ground (arith, left_law t a b c ab h p)
string-IsAsDeclared t right_semiring h =
    λ a b c ab ac bc p q r. ground (arith, right_law t a b c ab h p)
string-IsAsDeclared string_restrict commutative h = cc
string-IsAsDeclared string_left commutative h = cc
string-IsAsDeclared string_right commutative h = cc
string-IsAsDeclared t idempotent h = string_plus_self t
string-IsAsDeclared string_restrict path h = cc
string-IsAsDeclared string_left path h = cc
string-IsAsDeclared string_right path h = cc

-- 1 and 12, followed by 3.
left_one_sided : ¬ FlagLaw (string_weight string_left) right_semiring
unfolding string_plus string_times common_prefix
left_one_sided h =
    let one_way : ◌≡◌ {A = Result StringWeightVariant} (ok (labels (1 ∷ 3 ∷ [])))
        (ok (labels (1 ∷ []))) =
      h (labels (1 ∷ [])) (labels (1 ∷ 2 ∷ [])) (labels (3 ∷ [])) (labels (1 ∷ []))
        (labels (1 ∷ 3 ∷ [])) (labels (1 ∷ 2 ∷ 3 ∷ [])) refl refl refl in
    absurd (ground arith)

-- 1 and 21, behind 3.
right_one_sided : ¬ FlagLaw (string_weight string_right) left_semiring
unfolding string_plus string_times common_prefix common_suffix
right_one_sided h =
    let one_way : ◌≡◌ {A = Result StringWeightVariant} (ok (labels (3 ∷ 1 ∷ [])))
        (ok (labels (1 ∷ []))) =
      h (labels (1 ∷ [])) (labels (2 ∷ 1 ∷ [])) (labels (3 ∷ [])) (labels (1 ∷ []))
        (labels (3 ∷ 1 ∷ [])) (labels (3 ∷ 2 ∷ 1 ∷ [])) refl refl refl in
    absurd (ground arith)

-- The sides on which the product of a string weight distributes over its sum.
abbrev pub Distributes : StringType → Type 0
Distributes string_restrict = IsSemiring (string_weight string_restrict)
Distributes string_left =
    FlagLaw (string_weight string_left) left_semiring
    × ¬ FlagLaw (string_weight string_left) right_semiring
Distributes string_right =
    FlagLaw (string_weight string_right) right_semiring
    × ¬ FlagLaw (string_weight string_right) left_semiring

string-Distributes : (t : StringType) → Distributes t
string-Distributes string_restrict = record {
  near = string-IsNearSemiring string_restrict;
  left = string-IsAsDeclared string_restrict left_semiring refl;
  right = string-IsAsDeclared string_restrict right_semiring refl;
}
string-Distributes string_left =
    (string-IsAsDeclared string_left left_semiring refl, left_one_sided)
string-Distributes string_right =
    (string-IsAsDeclared string_right right_semiring refl, right_one_sided)

-- The sum of each of the three string weights is a commutative monoid, its product a monoid, and zero
-- annihilates. The product of the restricted weight distributes over its sum on both sides, that of the
-- left weight from the left and not from the right, and that of the right weight from the right and not
-- from the left. Where the restricted sum fails, the laws speak of the results that exist.
pub string_weight_lem : (t : StringType) → IsNearSemiring (string_weight t) × Distributes t
string_weight_lem t = (string-IsNearSemiring t, string-Distributes t)

reverse_times :
    (a b : StringWeightVariant)
    → string_reverse (string_times a b) ≡ string_times (string_reverse b) (string_reverse a)
unfolding string_times string_reverse
reverse_times infinity infinity = refl
reverse_times infinity (labels ys) = refl
reverse_times (labels xs) infinity = refl
reverse_times (labels xs) (labels ys) = ap labels (reverse-append xs ys)

reverse_twice : (a : StringWeightVariant) → string_reverse (string_reverse a) ≡ a
unfolding string_reverse
reverse_twice infinity = refl
reverse_twice (labels xs) = ap labels (reverse-reverse xs)

same_labels-reverse :
    (xs ys : List ℕ) → same_labels xs ys ≡ true → same_labels (reverse xs) (reverse ys) ≡ true
same_labels-reverse xs ys h =
    (same_labels_iff (reverse xs) (reverse ys)).1 (ap reverse ((same_labels_iff xs ys).0 h))

reverse_plus :
    (t : StringType) (a b ab : StringWeightVariant)
    → string_plus t a b ≡ ok ab
    → string_plus (reverse_type t) (string_reverse a) (string_reverse b) ≡ ok (string_reverse ab)
unfolding string_plus string_reverse common_suffix
reverse_plus t infinity b ab p = ground arith
reverse_plus string_restrict (labels xs) infinity ab p = ground arith
reverse_plus string_left (labels xs) infinity ab p = ground arith
reverse_plus string_right (labels xs) infinity ab p = ground arith
reverse_plus string_restrict (labels xs) (labels ys) ab p =
    ground (arith, same_labels-reverse xs ys)
reverse_plus string_left (labels xs) (labels ys) ab p =
    ground (arith, reverse-reverse xs, reverse-reverse ys)
reverse_plus string_right (labels xs) (labels ys) ab p =
    ground (arith, reverse-reverse (common_prefix (reverse xs) (reverse ys)))

-- Where the sum of two string weights exists, the sum of their reversals in the reverse weight is the
-- reversal of the sum; `reverse` turns products round, and is its own inverse.
pub string_reverse_lem :
    (t : StringType) (a b ab : StringWeightVariant)
    → string_plus t a b ≡ ok ab
    → (string_plus (reverse_type t) (string_reverse a) (string_reverse b) ≡ ok (string_reverse ab))
      × (string_reverse (string_times a b) ≡ string_times (string_reverse b) (string_reverse a))
      × (string_reverse (string_reverse a) ≡ a)
string_reverse_lem t a b ab h = (reverse_plus t a b ab h, reverse_times a b, reverse_twice a)
