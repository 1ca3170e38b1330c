-- ===== src/IntervalSet/Tests.antt =====
-- Interval sets with a concrete sort and a concrete `lower_bound`.
use rustfst.Base.{
  ℕ, zero, suc, ◌≤◌, ◌<◌, ◌≡◌, ◌↔◌, refl, if◌then◌else◌, true, false, List, [], ◌∷◌, length,
  get_elem?, none, some, arith, Bool-cases, inl, inr, subst,
}
use mathlib.Core.List.{Permᴰ}
use mathlib.Core.List.Permᴰ
use rustfst.Base.Sorting.{IsOrdered, IsSort}
use rustfst.IntervalSet.{
  IntInterval, IntervalSet, interval_le, interval_lt, absorb, collapse, normalize, member, Covers,
  AllProper, AllApart, total,
}
use rustfst.IntervalSet.Normal.{normalize_lem, normalize_hangs}
use rustfst.IntervalSet.Member.{IsLowerBound, member_lem}

abbrev insert : IntInterval → List IntInterval → List IntInterval
insert i [] = i ∷ []
insert i (j ∷ l) = let rest = insert i l in if interval_le i j then i ∷ j ∷ l else j ∷ rest

abbrev insertion_sort : List IntInterval → List IntInterval
insertion_sort [] = []
insertion_sort (i ∷ l) = insert i (insertion_sort l)

insert-Permᴰ : (i : IntInterval) (l : List IntInterval) → Permᴰ (insert i l) (i ∷ l)
insert-Permᴰ i [] = Permᴰ.refl (i ∷ [])
insert-Permᴰ i (j ∷ l) = elim (Bool-cases (interval_le i j)) [
  | inl e ↦ rw e (Permᴰ.refl (i ∷ j ∷ l))
  | inr e ↦ rw e (Permᴰ.trans (Permᴰ.cons refl (insert-Permᴰ i l)) (Permᴰ.swap refl refl))
]

sort-Permᴰ : (l : List IntInterval) → Permᴰ (insertion_sort l) l
sort-Permᴰ [] = Permᴰ.nil
sort-Permᴰ (i ∷ l) =
    Permᴰ.trans (insert-Permᴰ i (insertion_sort l)) (Permᴰ.cons refl (sort-Permᴰ l))

insert-IsOrdered :
    (i : IntInterval) (l : List IntInterval)
    → IsOrdered interval_le l
    → IsOrdered interval_le (insert i l)
insert-IsOrdered i [] o = tt
insert-IsOrdered i (j ∷ []) o = elim (Bool-cases (interval_le i j)) [
  | inl e ↦ rw e (e, tt)
  | inr e ↦ rw e (ground arith, tt)
]
insert-IsOrdered i (j ∷ k ∷ l) o = elim (Bool-cases (interval_le i j)) [
  | inl e ↦ rw e (e, o)
  | inr e ↦ elim (Bool-cases (interval_le i k)) [
    | inl f ↦ rw (e, f) (ground arith, (f, o.1))
    | inr f ↦ let ih = insert-IsOrdered i (k ∷ l) o.1 in ground arith
  ]
]

sort-IsOrdered : (l : List IntInterval) → IsOrdered interval_le (insertion_sort l)
sort-IsOrdered [] = tt
sort-IsOrdered (i ∷ l) = insert-IsOrdered i (insertion_sort l) (sort-IsOrdered l)

insertion_sort-IsSort : IsSort interval_le insertion_sort
insertion_sort-IsSort = record { ordered = sort-IsOrdered; permutes = sort-Permᴰ }

-- Walk past the smaller intervals.
abbrev walk_bound : List IntInterval → IntInterval → ℕ
walk_bound [] x = 0
walk_bound (i ∷ l) x = let rest = walk_bound l x in if interval_lt i x then suc rest else 0

walk_bound-in_range : (l : List IntInterval) (x : IntInterval) → walk_bound l x ≤ length l
walk_bound-in_range [] x = omega arith
walk_bound-in_range (i ∷ l) x = ground (arith, walk_bound-in_range l x)

walk_bound-before :
    (l : List IntInterval) (x i : IntInterval) (k : ℕ)
    → k < walk_bound l x
    → get_elem? l k ≡ some i
    → interval_lt i x ≡ true
walk_bound-before [] x i k lt e = cc
walk_bound-before (j ∷ l) x i zero lt e = elim (Bool-cases (interval_lt j x)) [
  | inl less ↦ subst (λ (m : IntInterval). interval_lt m x ≡ true) (ground arith) less
  | inr more ↦ absurd (ground arith)
]
walk_bound-before (j ∷ l) x i (suc k) lt e = elim (Bool-cases (interval_lt j x)) [
  | inl less ↦ walk_bound-before l x i k (ground arith) e
  | inr more ↦ absurd (ground arith)
]

none_less :
    (l : List IntInterval) (j x i : IntInterval) (k : ℕ)
    → IsOrdered interval_le (j ∷ l)
    → interval_lt j x ≡ false
    → get_elem? l k ≡ some i
    → interval_lt i x ≡ false
none_less [] j x i k o more e = cc
none_less (m ∷ l) j x i zero o more e =
    let next : interval_lt m x ≡ false = ground (arith, o.0) in
    subst (λ (m : IntInterval). interval_lt m x ≡ false) (ground arith) next
none_less (m ∷ l) j x i (suc k) o more e = none_less l m x i k o.1 (ground (arith, o.0)) e

tail-IsOrdered :
    (i : IntInterval) (l : List IntInterval)
    → IsOrdered interval_le (i ∷ l)
    → IsOrdered interval_le l
tail-IsOrdered i [] o = tt
tail-IsOrdered i (j ∷ l) o = o.1

walk_bound-behind :
    (l : List IntInterval) (x i : IntInterval) (k : ℕ)
    → IsOrdered interval_le l
    → walk_bound l x ≤ k
    → get_elem? l k ≡ some i
    → interval_lt i x ≡ false
walk_bound-behind [] x i k o le e = cc
walk_bound-behind (j ∷ l) x i zero o le e = elim (Bool-cases (interval_lt j x)) [
  | inl less ↦ absurd (ground arith)
  | inr more ↦ subst (λ (m : IntInterval). interval_lt m x ≡ false) (ground arith) more
]
walk_bound-behind (j ∷ l) x i (suc k) o le e = elim (Bool-cases (interval_lt j x)) [
  | inl less ↦ walk_bound-behind l x i k (tail-IsOrdered j l o) (ground arith) e
  | inr more ↦ none_less l j x i k o more e
]

walk_bound-IsLowerBound : IsLowerBound walk_bound
walk_bound-IsLowerBound = record {
  in_range = λ l x o. walk_bound-in_range l x;
  before = λ l x i k o. walk_bound-before l x i k;
  behind = walk_bound-behind;
}

-- [5, 7) [1, 3) [3, 4), which is [1, 4) [5, 7).
abbrev mixed : IntervalSet
mixed = record {
  intervals =
      record { begin = 5; end = 7 }
      ∷ record { begin = 1; end = 3 }
      ∷ record { begin = 3; end = 4 }
      ∷ [];
  count = none;
}

abbrev normal : IntervalSet
normal = record {
  intervals = record { begin = 1; end = 4 } ∷ record { begin = 5; end = 7 } ∷ [];
  count = some 5;
}

normalize-mixed : normalize insertion_sort 4 mixed ≡ some normal
unfolding normalize collapse absorb
normalize-mixed = refl

normalize_lem_example :
    (t : IntervalSet) × (normalize insertion_sort 4 mixed ≡ some t)
    × ((v : ℕ) → Covers t.intervals v ↔ Covers mixed.intervals v)
    × AllProper t.intervals
    × AllApart t.intervals
    × (t.count ≡ some (total t.intervals))
normalize_lem_example =
    normalize_lem insertion_sort insertion_sort-IsSort mixed 4
      (omega arith, (omega arith, (omega arith, tt))) (omega arith)

abbrev with_empty : IntervalSet
with_empty = record {
  intervals = record { begin = 5; end = 7 } ∷ record { begin = 2; end = 2 } ∷ [];
  count = none;
}

normalize_hangs_example : normalize insertion_sort 100 with_empty ≡ none
normalize_hangs_example =
    normalize_hangs insertion_sort insertion_sort-IsSort with_empty (record { begin = 2; end = 2 })
      (record { begin = 5; end = 7 } ∷ []) refl refl 100

member_lem_example : (member walk_bound normal 3 ≡ true) ↔ Covers normal.intervals 3
member_lem_example =
    member_lem walk_bound walk_bound-IsLowerBound normal (omega arith, (omega arith, tt))
      (omega arith, tt) 3
