-- ===== src/IntervalSet/Normal.antt =====
-- The results of `normalize`.
use rustfst.Base.{
  ℕ, zero, suc, ◌<◌, ◌≤◌, ◌≡◌, ◌↔◌, inl, inr, refl, ◌∙◌, ap, List, [], ◌∷◌, length, none, some,
  arith, subst,
}
use mathlib.Core.List.{Permᴰ}
use mathlib.Core.List.Permᴰ
use rustfst.Base.Sorting.{IsOrdered, IsSort}
use rustfst.IntervalSet.{
  IntInterval, IntervalSet, interval_le, collapse, normalize, Covers, AllProper, AllApart, total,
}
use rustfst.IntervalSet.Collapse.{IsReady, collapse-Collapses}

perm-Covers : {l m : List IntInterval} (v : ℕ) → Permᴰ l m → Covers l v → Covers m v
perm-Covers v Permᴰ.nil c = c
perm-Covers v (Permᴰ.cons e p) (inl c) =
    inl (subst (λ (i : IntInterval). (i.begin ≤ v) × (v < i.end)) e c)
perm-Covers v (Permᴰ.cons e p) (inr c) = inr (perm-Covers v p c)
perm-Covers v (Permᴰ.swap e q) (inl c) =
    inr (inl (subst (λ (i : IntInterval). (i.begin ≤ v) × (v < i.end)) e c))
perm-Covers v (Permᴰ.swap e q) (inr (inl c)) =
    inl (subst (λ (i : IntInterval). (i.begin ≤ v) × (v < i.end)) q c)
perm-Covers v (Permᴰ.swap e q) (inr (inr c)) = inr (inr c)
perm-Covers v (Permᴰ.trans p q) c = perm-Covers v q (perm-Covers v p c)

perm_proper : {l m : List IntInterval} → Permᴰ l m → AllProper l → AllProper m
perm_proper Permᴰ.nil h = h
perm_proper (Permᴰ.cons e p) h =
    (subst (λ (i : IntInterval). i.begin < i.end) e h.0, perm_proper p h.1)
perm_proper (Permᴰ.swap e q) h = (
  subst (λ (i : IntInterval). i.begin < i.end) q h.1.0,
  (subst (λ (i : IntInterval). i.begin < i.end) e h.0, h.1.1),
)
perm_proper (Permᴰ.trans p q) h = perm_proper q (perm_proper p h)

perm_length : {l m : List IntInterval} → Permᴰ l m → length l ≡ length m
perm_length Permᴰ.nil = refl
perm_length (Permᴰ.cons e p) = ap suc (perm_length p)
perm_length (Permᴰ.swap e q) = refl
perm_length (Permᴰ.trans p q) = perm_length p ∙ perm_length q

ordered-IsReady : (l : List IntInterval) → IsOrdered interval_le l → AllProper l → IsReady l
ordered-IsReady [] o p = tt
ordered-IsReady (i ∷ []) o p = (p.0, tt, tt)
ordered-IsReady (i ∷ j ∷ l) o p = (p.0, ground arith, ordered-IsReady (j ∷ l) o.1 p.1)

collapse-empty :
    (n : ℕ) (i : IntInterval) (l : List IntInterval) → i.begin ≡ i.end → collapse n (i ∷ l) ≡ none
unfolding collapse
collapse-empty zero i l e = refl
collapse-empty (suc n) i l e = ground (arith, collapse-empty n i l e)

module _ (sort : List IntInterval → List IntInterval) (sorts : IsSort interval_le sort) where
  -- With a `sort` that orders and permutes, and on intervals none of which is empty or runs backwards, `normalize` ends, within one more round than there are
  -- intervals. Its result has the same points, its intervals are not empty and neither overlap nor
  -- touch, in rising order, and its count is the sum of their lengths.
  pub normalize_lem :
      (s : IntervalSet) (fuel : ℕ)
      → AllProper s.intervals
      → length s.intervals < fuel
      → (t : IntervalSet) × (normalize sort fuel s ≡ some t)
        × ((v : ℕ) → Covers t.intervals v ↔ Covers s.intervals v)
        × AllProper t.intervals
        × AllApart t.intervals
        × (t.count ≡ some (total t.intervals))
  unfolding normalize
  normalize_lem s fuel proper enough =
      let l = sort s.intervals in
      let perm = sorts.permutes s.intervals in
      let ready =
        ordered-IsReady l (sorts.ordered s.intervals) (perm_proper (Permᴰ.symm perm) proper) in
      let (kept, count, e, c) = collapse-Collapses fuel l (omega (arith, perm_length perm)) ready in
      (
        record { intervals = kept; count = some count },
        ground (arith, e),
        λ v. (
          λ k. perm-Covers v perm ((c.points v).0 k),
          λ k. (c.points v).1 (perm-Covers v (Permᴰ.symm perm) k),
        ),
        c.proper,
        c.apart,
        ap some c.counted,
      )

  -- A set whose first interval, once sorted, is empty is never normalized: no number of rounds of the
  -- loop is enough.
  pub normalize_hangs :
      (s : IntervalSet) (i : IntInterval) (l : List IntInterval)
      → sort s.intervals ≡ i ∷ l
      → i.begin ≡ i.end
      → (fuel : ℕ) → normalize sort fuel s ≡ none
  unfolding normalize
  normalize_hangs s i l e empty fuel =
      ground (arith, ap (collapse fuel) e, collapse-empty fuel i l empty)
