-- ===== src/IntervalSet.antt =====
-- rustfst/src/algorithms/compose/interval_set.rs: sets of numbers as vectors of half-open intervals.
pub mod Collapse
pub mod Normal
pub mod Member
pub mod Tests
use rustfst.Base.{
  ℕ, zero, suc, ◌+◌, ◌-◌, ◌<◌, ◌≤◌, ◌==◌, ltb, leb, if◌then◌else◌, Bool, true, false, ◌&&◌, ◌||◌,
  List, [], ◌∷◌, ◌++◌, length, get_elem?, Option, none, some, ◌⊎◌,
}

pub record IntInterval : Type 0 where
  pub begin : ℕ
  pub end : ℕ

-- `self.cmp(other) != Greater`, and `self.cmp(other) == Less`: by `begin`, then by falling `end`.
abbrev pub interval_le : IntInterval → IntInterval → Bool
interval_le a b = ltb a.begin b.begin || a.begin == b.begin && leb b.end a.end

abbrev pub interval_lt : IntInterval → IntInterval → Bool
interval_lt a b = ltb a.begin b.begin || a.begin == b.begin && ltb b.end a.end

-- The vector of intervals and its count of points, which `normalize` sets.
pub record IntervalSet : Type 0 where
  pub intervals : List IntInterval
  pub count : Option ℕ

unfoldable pub push : IntervalSet → IntInterval → IntervalSet
push s i = record s { intervals = s.intervals ++ i ∷ [] }

unfoldable pub clear : IntervalSet → IntervalSet
clear s = record { intervals = []; count = none }

unfoldable pub union : IntervalSet → IntervalSet → IntervalSet
union s t = record s { intervals = s.intervals ++ t.intervals }

unfoldable pub singleton : IntervalSet → Bool
singleton s = one s.intervals
  where
    one : List IntInterval → Bool
    one (i ∷ []) = i.begin + 1 == i.end
    one _ = false

-- The inner loop of `normalize`: the intervals behind one that begins before `end` and that touch it
-- are skipped, and `end` grows to cover them. The result is the new `end` and the intervals from the
-- first that stands apart.
unfoldable pub absorb : ℕ → List IntInterval → ℕ × List IntInterval
absorb end [] = (end, [])
absorb end (j ∷ js) =
    let rest = absorb (if ltb end j.end then j.end else end) js in
    if ltb end j.begin then (end, j ∷ js) else rest

-- The outer loop over the intervals from `i` on, with fuel: the intervals that are kept and the sum of
-- their lengths. An empty interval is met by `continue`, which leaves `i` as it is.
unfoldable pub collapse : ℕ → List IntInterval → Option (List IntInterval × ℕ)
collapse zero l = none
collapse (suc fuel) [] = some ([], 0)
collapse (suc fuel) (i ∷ l) =
    let again = collapse fuel (i ∷ l) in
    let next = absorb i.end l in
    let rest = collapse fuel next.1 in
    if i.begin == i.end then again else elim rest [
      | none ↦ none
      | some (kept, count) ↦
          some (record { begin = i.begin; end = next.0 } ∷ kept, (next.0 - i.begin) + count)
    ]

-- `normalize` with the standard library's `sort`; `none` when the fuel runs out.
unfoldable pub normalize :
    (List IntInterval → List IntInterval) → ℕ → IntervalSet → Option IntervalSet
normalize sort fuel s = elim (collapse fuel (sort s.intervals)) [
  | none ↦ none
  | some (kept, count) ↦ some (record { intervals = kept; count = some count })
]

-- `member`, with `lower_bound` of the crate superslice.
unfoldable pub member : (List IntInterval → IntInterval → ℕ) → IntervalSet → ℕ → Bool
member lower_bound s value =
    let lb = lower_bound s.intervals (record { begin = value; end = value }) in
    if lb == 0
    then false
    else elim (get_elem? s.intervals (lb - 1)) [ none ↦ false | some i ↦ ltb value i.end ]

-- The points of a vector of intervals.
abbrev pub Covers : List IntInterval → ℕ → Type 0
Covers [] v = ⊥
Covers (i ∷ l) v = ((i.begin ≤ v) × (v < i.end)) ⊎ Covers l v

-- No interval is empty or runs backwards.
abbrev pub AllProper : List IntInterval → Type 0
AllProper [] = Unit
AllProper (i ∷ l) = (i.begin < i.end) × AllProper l

-- Each interval ends before the next begins: no two overlap or touch.
abbrev pub AllApart : List IntInterval → Type 0
AllApart [] = Unit
AllApart (i ∷ []) = Unit
AllApart (i ∷ j ∷ l) = (i.end < j.begin) × AllApart (j ∷ l)

abbrev pub total : List IntInterval → ℕ
total [] = 0
total (i ∷ l) = (i.end - i.begin) + total l
