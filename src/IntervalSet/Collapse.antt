-- ===== src/IntervalSet/Collapse.antt =====
-- The loops of `normalize`.
use rustfst.Base.{
  ℕ, zero, suc, ◌+◌, ◌-◌, ◌<◌, ◌≤◌, ◌≡◌, ◌↔◌, ◌⊎◌, inl, inr, refl, ltb, if◌then◌else◌, List, [],
  ◌∷◌, length, some, arith, Bool-cases, ⊎_elim,
}
use native.Mathlib.Decide.{dec_lt}
use rustfst.IntervalSet.{IntInterval, absorb, collapse, Covers, AllProper, AllApart, total}

-- The first interval begins at `b` or later; after `p`.
abbrev pub FirstFrom : ℕ → List IntInterval → Type 0
FirstFrom b [] = Unit
FirstFrom b (i ∷ l) = b ≤ i.begin

abbrev pub FirstAfter : ℕ → List IntInterval → Type 0
FirstAfter p [] = Unit
FirstAfter p (i ∷ l) = p < i.begin

-- The beginnings rise, and each interval has a point.
abbrev pub IsReady : List IntInterval → Type 0
IsReady [] = Unit
IsReady (i ∷ l) = (i.begin < i.end) × FirstFrom i.begin l × IsReady l

FirstFrom-trans : (a b : ℕ) (l : List IntInterval) → a ≤ b → FirstFrom b l → FirstFrom a l
FirstFrom-trans a b [] h k = tt
FirstFrom-trans a b (i ∷ l) h k = omega arith

-- An interval that begins within [b, e] or at its end, and the interval that covers both.
grow_points :
    (b e : ℕ) (j : IntInterval) (C : Type 0) (v : ℕ)
    → b ≤ j.begin
    → j.begin ≤ e
    → (((b ≤ v) × (v < e)) ⊎ (((j.begin ≤ v) × (v < j.end)) ⊎ C))
      ↔ (((b ≤ v) × (v < (if ltb e j.end then j.end else e))) ⊎ C)
grow_points b e j C v from near = (
  ⊎_elim (λ (lo, hi). inl (lo, ground arith))
      (⊎_elim (λ (lo, hi). inl (omega arith, ground arith)) inr),
  ⊎_elim
      (λ (lo, hi). elim (dec_lt v e) [
        | yes inside ↦ inl (lo, inside)
        | no beyond ↦ inr (inl (omega arith, ground arith))
      ])
      (λ c. inr (inr c)),
)

pub record Absorbs (b e : ℕ) (l : List IntInterval) (e' : ℕ) (rest : List IntInterval)
    : Type 0 where
  pub grows : e ≤ e'
  pub shorter : length rest ≤ length l
  pub ready : IsReady rest
  pub apart : FirstAfter e' rest
  pub points : (v : ℕ) → (((b ≤ v) × (v < e)) ⊎ Covers l v) ↔ (((b ≤ v) × (v < e')) ⊎ Covers rest v)

pub absorb-Absorbs :
    (b e : ℕ) (l : List IntInterval)
    → b < e
    → FirstFrom b l
    → IsReady l
    → Absorbs b e l (absorb e l).0 (absorb e l).1
unfolding absorb
absorb-Absorbs b e [] lt from ready = record {
  grows = omega arith;
  shorter = omega arith;
  ready = tt;
  apart = tt;
  points = λ v. (λ x. x, λ x. x);
}
absorb-Absorbs b e (j ∷ js) lt from ready = elim (Bool-cases (ltb e j.begin)) [
  | inl far ↦ rw far (record {
    grows = omega arith;
    shorter = omega arith;
    ready = ready;
    apart = ground arith;
    points = λ v. (λ x. x, λ x. x);
  })
  | inr near ↦
      let top = if ltb e j.end then j.end else e in
      let ih =
        absorb-Absorbs b top js (ground arith) (FirstFrom-trans b j.begin js from ready.1)
          ready.2 in
      rw near (record {
        grows = ground (arith, ih.grows);
        shorter = omega (arith, ih.shorter);
        ready = ih.ready;
        apart = ih.apart;
        points = λ v.
            let grown = grow_points b e j (Covers js v) v from (ground arith) in
            (λ h. (ih.points v).0 (grown.0 h), λ h. grown.1 ((ih.points v).1 h));
      })
]

-- What the outer loop returns for the intervals `l`.
pub record Collapses (l : List IntInterval) (kept : List IntInterval) (count : ℕ) : Type 0 where
  pub proper : AllProper kept
  pub apart : AllApart kept
  pub points : (v : ℕ) → Covers kept v ↔ Covers l v
  pub counted : count ≡ total kept
  pub first : (p : ℕ) → FirstAfter p l → FirstAfter p kept

apart_cons :
    (i : IntInterval) (l : List IntInterval) → FirstAfter i.end l → AllApart l → AllApart (i ∷ l)
apart_cons i [] f a = tt
apart_cons i (j ∷ l) f a = (f, a)

pub collapse-Collapses :
    (fuel : ℕ) (l : List IntInterval)
    → length l < fuel
    → IsReady l
    → (kept : List IntInterval) × (count : ℕ) × (collapse fuel l ≡ some (kept, count))
      × Collapses l kept count
unfolding collapse
collapse-Collapses zero l h ready = elim h [ ]
collapse-Collapses (suc fuel) [] h ready = (
  [],
  0,
  refl,
  record {
    proper = tt;
    apart = tt;
    points = λ v. (λ x. x, λ x. x);
    counted = refl;
    first = λ p f. tt;
  },
)
collapse-Collapses (suc fuel) (i ∷ l) h ready =
    let a = absorb-Absorbs i.begin i.end l ready.0 ready.1 ready.2 in
    let next = absorb i.end l in
    let (kept, count, e, ih) = collapse-Collapses fuel next.1 (omega (arith, a.shorter)) a.ready in
    let first : IntInterval = record { begin = i.begin; end = next.0 } in
    (
      first ∷ kept,
      (next.0 - i.begin) + count,
      ground (arith, e),
      record {
        proper = (omega (arith, a.grows), ih.proper);
        apart = apart_cons first kept (ih.first next.0 a.apart) ih.apart;
        points = λ v. (
          λ c. (a.points v).1 (⊎_elim inl (λ k. inr ((ih.points v).0 k)) c),
          λ c. ⊎_elim inl (λ k. inr ((ih.points v).1 k)) ((a.points v).0 c),
        );
        counted = omega (arith, ih.counted);
        first = λ p f. f;
      },
    )
