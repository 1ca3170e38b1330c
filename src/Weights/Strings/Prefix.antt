-- ===== src/Weights/Strings/Prefix.antt =====
-- Longest common prefixes and suffixes.
use rustfst.Base.{ℕ, ◌≡◌, refl, ap, ◌∙◌, true, List, [], ◌∷◌, ◌++◌, reverse, ◌↔◌, arith}
use mathlib.Core.List.{reverse-append, reverse-reverse}
use rustfst.Weights.Strings.{same_labels, common_prefix, common_suffix}

pub same_labels_iff : (xs ys : List ℕ) → (same_labels xs ys ≡ true) ↔ (xs ≡ ys)
same_labels_iff [] [] = ground arith
same_labels_iff [] (y ∷ ys) = ground arith
same_labels_iff (x ∷ xs) [] = ground arith
same_labels_iff (x ∷ xs) (y ∷ ys) = ground (arith, same_labels_iff xs ys)

pub common_prefix_comm : (xs ys : List ℕ) → common_prefix xs ys ≡ common_prefix ys xs
unfolding common_prefix
common_prefix_comm [] [] = refl
common_prefix_comm [] (y ∷ ys) = refl
common_prefix_comm (x ∷ xs) [] = refl
common_prefix_comm (x ∷ xs) (y ∷ ys) = ground (arith, common_prefix_comm xs ys)

pub common_prefix_self : (xs : List ℕ) → common_prefix xs xs ≡ xs
unfolding common_prefix
common_prefix_self [] = refl
common_prefix_self (x ∷ xs) = ground (arith, common_prefix_self xs)

pub common_prefix_assoc :
    (xs ys zs : List ℕ)
    → common_prefix (common_prefix xs ys) zs ≡ common_prefix xs (common_prefix ys zs)
unfolding common_prefix
common_prefix_assoc [] ys zs = refl
common_prefix_assoc (x ∷ xs) [] zs = refl
common_prefix_assoc (x ∷ xs) (y ∷ ys) [] = ground arith
common_prefix_assoc (x ∷ xs) (y ∷ ys) (z ∷ zs) = ground (arith, common_prefix_assoc xs ys zs)

-- A common factor on the left leaves the prefix.
pub common_prefix-append :
    (c xs ys : List ℕ) → common_prefix (c ++ xs) (c ++ ys) ≡ c ++ common_prefix xs ys
unfolding common_prefix
common_prefix-append [] xs ys = refl
common_prefix-append (x ∷ c) xs ys = ground (arith, common_prefix-append c xs ys)

pub common_suffix_comm : (xs ys : List ℕ) → common_suffix xs ys ≡ common_suffix ys xs
unfolding common_suffix
common_suffix_comm xs ys = ap reverse (common_prefix_comm (reverse xs) (reverse ys))

pub common_suffix_self : (xs : List ℕ) → common_suffix xs xs ≡ xs
unfolding common_suffix
common_suffix_self xs = ap reverse (common_prefix_self (reverse xs)) ∙ reverse-reverse xs

pub common_suffix_assoc :
    (xs ys zs : List ℕ)
    → common_suffix (common_suffix xs ys) zs ≡ common_suffix xs (common_suffix ys zs)
unfolding common_suffix
common_suffix_assoc xs ys zs = simp (reverse-reverse, common_prefix_assoc)

pub common_suffix-append :
    (c xs ys : List ℕ) → common_suffix (xs ++ c) (ys ++ c) ≡ common_suffix xs ys ++ c
unfolding common_suffix
common_suffix-append c xs ys = simp (reverse-append, common_prefix-append, reverse-reverse)
