-- ===== src/IntervalSet/Member.antt =====
-- `member` on normalized sets.
use rustfst.Base.{
  ℕ, zero, suc, ◌-◌, ◌<◌, ◌≤◌, ◌≡◌, ◌↔◌, inl, inr, refl, ap, List, [], ◌∷◌, length, get_elem?,
  get_elem?-some, some, arith, true, false,
}
use native.Mathlib.Decide.{dec_lt}
use rustfst.Base.Sorting.{IsOrdered}
use rustfst.IntervalSet.{
  IntInterval, IntervalSet, interval_le, interval_lt, member, Covers, AllProper, AllApart,
}

-- `lower_bound` on an ordered vector: the number of the elements that are less, which come first.
pub record IsLowerBound (lower_bound : List IntInterval → IntInterval → ℕ) : Type 0 where
  pub in_range :
      (l : List IntInterval) (x : IntInterval)
      → IsOrdered interval_le l
      → lower_bound l x ≤ length l
  pub before :
      (l : List IntInterval) (x i : IntInterval) (k : ℕ)
      → IsOrdered interval_le l
      → k < lower_bound l x
      → get_elem? l k ≡ some i
      → interval_lt i x ≡ true
  pub behind :
      (l : List IntInterval) (x i : IntInterval) (k : ℕ)
      → IsOrdered interval_le l
      → lower_bound l x ≤ k
      → get_elem? l k ≡ some i
      → interval_lt i x ≡ false

Covers-at :
    (l : List IntInterval) (k v : ℕ) (i : IntInterval)
    → get_elem? l k ≡ some i
    → i.begin ≤ v
    → v < i.end
    → Covers l v
Covers-at [] k v i e lo hi = cc
Covers-at (j ∷ l) zero v i e lo hi = inl (ground arith)
Covers-at (j ∷ l) (suc k) v i e lo hi = inr (Covers-at l k v i e lo hi)

at-Covers :
    (l : List IntInterval) (v : ℕ)
    → Covers l v
    → (k : ℕ) × (i : IntInterval) × (get_elem? l k ≡ some i) × (i.begin ≤ v) × (v < i.end)
at-Covers (j ∷ l) v (inl (lo, hi)) = (0, j, refl, lo, hi)
at-Covers (j ∷ l) v (inr c) = let (k, i, e, lo, hi) = at-Covers l v c in (suc k, i, e, lo, hi)
at-Covers [] v c = absurd c

-- The first interval ends before all later ones begin.
apart_first :
    (i j : IntInterval) (l : List IntInterval) (k : ℕ)
    → AllProper l
    → AllApart (i ∷ l)
    → get_elem? l k ≡ some j
    → i.end < j.begin
apart_first i j [] k p a e = cc
apart_first i j (m ∷ l) zero p a e = ground arith
apart_first i j (m ∷ l) (suc k) p a e = omega (arith, apart_first m j l k p.1 a.1 e, p.0, a.0)

apart_later :
    (l : List IntInterval) (a b : ℕ) (i j : IntInterval)
    → AllProper l
    → AllApart l
    → a < b
    → get_elem? l a ≡ some i
    → get_elem? l b ≡ some j
    → i.end < j.begin
apart_later [] a b i j p q lt e f = cc
apart_later (m ∷ l) zero (suc b) i j p q lt e f = ground (arith, apart_first m j l b p.1 q f)
apart_later (m ∷ n ∷ l) (suc a) (suc b) i j p q lt e f =
    apart_later (n ∷ l) a b i j p.1 q.1 (omega arith) e f
apart_later (m ∷ []) (suc a) (suc b) i j p q lt e f = cc
apart_later (m ∷ l) zero zero i j p q lt e f = absurd (omega arith)
apart_later (m ∷ l) (suc a) zero i j p q lt e f = absurd (omega arith)

apart-IsOrdered : (l : List IntInterval) → AllProper l → AllApart l → IsOrdered interval_le l
apart-IsOrdered [] p a = tt
apart-IsOrdered (i ∷ []) p a = tt
apart-IsOrdered (i ∷ j ∷ l) p a = (ground arith, apart-IsOrdered (j ∷ l) p.1 a.1)

module _ (lower_bound : List IntInterval → IntInterval → ℕ) (bounds : IsLowerBound lower_bound)
    (s : IntervalSet) (proper : AllProper s.intervals) (apart : AllApart s.intervals) where
  member_sound : (v : ℕ) → member lower_bound s v ≡ true → Covers s.intervals v
  unfolding member
  member_sound v h =
      let x : IntInterval = record { begin = v; end = v } in
      let lb = lower_bound s.intervals x in
      let ord = apart-IsOrdered s.intervals proper apart in
      elim (dec_lt 0 lb) [
        | yes pos ↦
            let (i, e) =
              get_elem?-some s.intervals (lb - 1)
                (omega (arith, bounds.in_range s.intervals x ord)) in
            let less = bounds.before s.intervals x i (lb - 1) ord (omega arith) e in
            Covers-at s.intervals (lb - 1) v i e (ground arith) (ground arith)
        | no nil ↦ absurd (ground arith)
      ]

  member_complete : (v : ℕ) → Covers s.intervals v → member lower_bound s v ≡ true
  unfolding member
  member_complete v c =
      let x : IntInterval = record { begin = v; end = v } in
      let lb = lower_bound s.intervals x in
      let ord = apart-IsOrdered s.intervals proper apart in
      let (k, i, e, lo, hi) = at-Covers s.intervals v c in
      elim (dec_lt k lb) [
        | yes inside ↦
            let (j, f) =
              get_elem?-some s.intervals (lb - 1)
                (omega (arith, bounds.in_range s.intervals x ord)) in
            let less = bounds.before s.intervals x j (lb - 1) ord (omega arith) f in
            elim (dec_lt k (lb - 1)) [
              | yes earlier ↦
                  let gap = apart_later s.intervals k (lb - 1) i j proper apart earlier e f in
                  absurd (ground arith)
              | no last ↦
                  let same : lb - 1 ≡ k = omega arith in
                  ground (arith, ap (get_elem? s.intervals) same)
            ]
        | no outside ↦
            let more = bounds.behind s.intervals x i k ord (omega arith) e in absurd (ground arith)
      ]

  -- On intervals that are not empty and stand apart in rising order, with `lower_bound` as documented,
  -- `member` says of every number whether an interval holds it.
  pub member_lem : (v : ℕ) → (member lower_bound s v ≡ true) ↔ Covers s.intervals v
  member_lem v = (member_sound v, member_complete v)
