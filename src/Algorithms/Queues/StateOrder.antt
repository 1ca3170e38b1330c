-- ===== src/Algorithms/Queues/StateOrder.antt =====
-- The queue as the set of its states.
use rustfst.Base.{
  ℕ, zero, suc, ◌+◌, ◌-◌, ◌<◌, ◌≤◌, ◌≡◌, ◌≢◌, ◌⊎◌, ◌↔◌, inl, inr, refl, sym, ap, subst, ◌∙◌, ◌==◌,
  if◌then◌else◌, Bool, true, false, List, [], ◌∷◌, ◌++◌, length, get_elem?, set, replicate,
  length-append, length-replicate, get_elem?-lt, Option, some, Bool-cases, Option-cases, ⊎_elim,
  arith,
}
use native.Mathlib.Decide.{dec_lt, dec_le}
use rustfst.Fst.Access.{get_elem?-set}
use rustfst.Algorithms.Queues.{StateOrderQueue, test, is_empty, padded, enqueue, advance, dequeue}

abbrev pub Queued : StateOrderQueue → ℕ → Type 0
Queued q s = test q.enqueued s ≡ true

-- The queue is empty, or its least and its greatest state are at its ends.
pub record IsValid (q : StateOrderQueue) : Type 0 where
  pub between :
      (s : ℕ) → Queued q s → (back : ℕ) × (q.back ≡ some back) × (q.front ≤ s) × (s ≤ back)
  pub ends : (back : ℕ) → q.back ≡ some back → q.front ≤ back → Queued q q.front × Queued q back

test-replicate : (n s : ℕ) → test (replicate n false) s ≡ false
test-replicate zero s = refl
test-replicate (suc n) zero = refl
test-replicate (suc n) (suc s) = test-replicate n s

test-padded : (l : List Bool) (n s : ℕ) → test (l ++ replicate n false) s ≡ test l s
test-padded [] n s = test-replicate n s
test-padded (b ∷ l) n zero = refl
test-padded (b ∷ l) n (suc s) = test-padded l n s

pub test-set :
    (l : List Bool) (i s : ℕ) (b : Bool)
    → i < length l
    → test (set l i b) s ≡ (if i == s then b else test l s)
test-set l i s b lt = ground (arith, get_elem?-set l i s b lt)

pub test-lt : (l : List Bool) (s : ℕ) → test l s ≡ true → s < length l
test-lt l s h = elim (Option-cases (get_elem? l s)) [
  | inl e ↦ absurd (ground arith)
  | inr (b, e) ↦ get_elem?-lt l s e
]

pub test-marked :
    (l : List Bool) (i s : ℕ)
    → test (set (padded l i) i true) s ≡ (if i == s then true else test l s)
test-marked l i s =
    let size : length (padded l i) ≡ length l + length (replicate (suc i - length l) false) =
      length-append l (replicate (suc i - length l) false) in
    let more = length-replicate (suc i - length l) false in
    ground (
      arith,
      test-set (padded l i) i s true (omega (arith, size, more)),
      test-padded l (suc i - length l) s,
    )

advance-goes :
    (l : List Bool) (back rounds front : ℕ)
    → front ≤ back
    → test l front ≡ false
    → advance l back (suc rounds) front ≡ advance l back rounds (suc front)
unfolding advance
advance-goes l back rounds front le e = ground (arith, le, e)

advance-halts :
    (l : List Bool) (back rounds front : ℕ)
    → (back < front) ⊎ (test l front ≡ true)
    → advance l back (suc rounds) front ≡ front
unfolding advance
advance-halts l back rounds front h = ground (arith, h)

-- The loop of `dequeue` stops at the first queued state, or behind `back`.
record Advances (l : List Bool) (back front stop : ℕ) : Type 0 where
  grows : front ≤ stop
  passed : (s : ℕ) → front ≤ s → s < stop → test l s ≡ false
  halted : (back < stop) ⊎ (test l stop ≡ true)

advance-Advances :
    (l : List Bool) (back rounds front : ℕ)
    → suc back ≤ front + rounds
    → Advances l back front (advance l back rounds front)
unfolding advance
advance-Advances l back zero front enough = record {
  grows = omega arith;
  passed = λ s lo hi. absurd (omega arith);
  halted = inl (omega arith);
}
advance-Advances l back (suc rounds) front enough = elim (dec_le front back) [
  | yes le ↦ elim (Bool-cases (test l front)) [
    | inl found ↦
        subst (Advances l back front) (sym (advance-halts l back rounds front (inr found)))
          (record {
            grows = omega arith;
            passed = λ s lo hi. absurd (omega arith);
            halted = inr found;
          })
    | inr absent ↦
        let ih = advance-Advances l back rounds (suc front) (omega arith) in
        subst (Advances l back front) (sym (advance-goes l back rounds front le absent)) (record {
          grows = omega (arith, ih.grows);
          passed = λ s lo hi. elim (dec_lt front s) [
            | yes more ↦ ih.passed s (omega arith) hi
            | no last ↦
                let same : front ≡ s = omega arith in
                subst (λ (n : ℕ). test l n ≡ false) same absent
          ];
          halted = ih.halted;
        })
  ]
  | no past ↦
      subst (Advances l back front) (sym (advance-halts l back rounds front (inl (omega arith))))
        (record {
          grows = omega arith;
          passed = λ s lo hi. absurd (omega arith);
          halted = inl (omega arith);
        })
]

-- The result of `dequeue` on `q`: the least state, and a valid queue of the others.
pub record ServesLeast (q : StateOrderQueue) (r : StateOrderQueue × Option ℕ) : Type 0 where
  pub least : ℕ
  pub returned : r.1 ≡ some least
  pub was_queued : Queued q least
  pub is_least : (x : ℕ) → Queued q x → least ≤ x
  pub others : (x : ℕ) → Queued r.0 x ↔ (Queued q x × (x ≢ least))
  pub valid : IsValid r.0

-- `dequeue` on a valid queue that is not empty returns its least state and takes that out, leaving the
-- other states and a valid queue.
pub dequeue_lem : (q : StateOrderQueue) → IsValid q → is_empty q ≡ false → ServesLeast q (dequeue q)
unfolding dequeue is_empty
dequeue_lem q v more = elim (Option-cases q.back) [
  | inl e ↦ absurd (ground arith)
  | inr (back, e) ↦
      let le : q.front ≤ back = ground arith in
      let (first, last) = v.ends back e le in
      let l = set q.enqueued q.front false in
      let stop = advance l back (suc back - q.front) q.front in
      let adv = advance-Advances l back (suc back - q.front) q.front (omega arith) in
      let cleared : (x : ℕ) → test l x ≡ (if q.front == x then false else test q.enqueued x) =
        λ x. test-set q.enqueued q.front x false (test-lt q.enqueued q.front first) in
      let left : StateOrderQueue = record q { front = stop; enqueued = l } in
      let same : dequeue q ≡ (left, some q.front) = ground (arith, e) in
      let others : (x : ℕ) → Queued left x ↔ (Queued q x × (x ≢ q.front)) = λ x. (
        λ h. (ground (arith, cleared x), λ k. ground (arith, cleared x)),
        λ (h, k). ground (arith, cleared x, k),
      ) in
      subst (ServesLeast q) (sym same) (record {
        least = q.front;
        returned = refl;
        was_queued = first;
        is_least = λ x h. let (b, e', lo, hi) = v.between x h in lo;
        others = others;
        valid = record {
          between = λ x h.
              let (h', other) = (others x).0 h in
              let (b, e', lo, hi) = v.between x h' in
              elim (dec_lt x stop) [
                | yes early ↦ absurd (ground (arith, adv.passed x lo early))
                | no fine ↦ (b, e', omega arith, hi)
              ];
          ends = λ b e' stays.
              let eb : b ≡ back = ground (arith, e, e') in
              let at_stop : test l stop ≡ true =
                ⊎_elim (λ past. absurd (omega (arith, eb))) (λ found. found) adv.halted in
              (
                at_stop,
                subst (λ (n : ℕ). test l n ≡ true) (sym eb)
                    ((others back).1
                      (last, λ k. ((others stop).0 at_stop).1 (omega (arith, adv.grows, k, eb)))),
              );
        };
      })
]

-- The queue after `enqueue`, with the new ends.
record Joins (q : StateOrderQueue) (s : ℕ) (r : StateOrderQueue) : Type 0 where
  states : r.enqueued ≡ set (padded q.enqueued s) s true
  ends :
      (back : ℕ) × (r.back ≡ some back)
      × (r.front ≤ s)
      × (s ≤ back)
      × ((x : ℕ) → Queued q x → (r.front ≤ x) × (x ≤ back))
      × ((r.front ≡ s) ⊎ Queued q r.front)
      × ((back ≡ s) ⊎ Queued q back)

joins :
    (q : StateOrderQueue) (s front back : ℕ)
    → front ≤ s
    → s ≤ back
    → ((x : ℕ) → Queued q x → (front ≤ x) × (x ≤ back))
    → (front ≡ s) ⊎ Queued q front
    → (back ≡ s) ⊎ Queued q back
    → enqueue q s
      ≡ record { front = front; back = some back; enqueued = set (padded q.enqueued s) s true }
    → Joins q s (enqueue q s)
joins q s front back lo hi inside low high e =
    subst (Joins q s) (sym e)
      (record { states = refl; ends = (back, refl, lo, hi, inside, low, high) })

enqueue-Joins : (q : StateOrderQueue) (s : ℕ) → IsValid q → Joins q s (enqueue q s)
unfolding enqueue
enqueue-Joins q s v = elim (Option-cases q.back) [
  | inl e ↦
      joins q s s s (omega arith) (omega arith)
        (λ x h. let (b, e', lo, hi) = v.between x h in absurd (ground (arith, e, e'))) (inl refl)
        (inl refl) (ground (arith, e))
  | inr (back, e) ↦
      let known : (x : ℕ) → Queued q x → (q.front ≤ x) × (x ≤ back) = λ x h.
        let (b, e', lo, hi) = v.between x h in
        let eb : b ≡ back = ground (arith, e, e') in (lo, omega (arith, eb)) in
      elim (dec_lt back q.front) [
        | yes empty ↦
            joins q s s s (omega arith) (omega arith)
              (λ x h. absurd (omega (arith, (known x h).0, (known x h).1))) (inl refl) (inl refl)
              (ground (arith, e))
        | no full ↦
            let (first, last) = v.ends back e (omega arith) in
            elim (dec_lt back s) [
              | yes above ↦
                  joins q s q.front s (omega arith) (omega arith)
                    (λ x h. ((known x h).0, omega (arith, (known x h).1))) (inr first) (inl refl)
                    (ground (arith, e))
              | no within ↦ elim (dec_lt s q.front) [
                | yes below ↦
                    joins q s s back (omega arith) (omega arith)
                      (λ x h. (omega (arith, (known x h).0), (known x h).1)) (inl refl) (inr last)
                      (ground (arith, e))
                | no inside ↦
                    joins q s q.front back (omega arith) (omega arith) known (inr first) (inr last)
                      (ground (arith, e))
              ]
            ]
      ]
]

-- `enqueue` on a valid queue adds its state to the set of states, and leaves a valid queue.
pub enqueue_lem :
    (q : StateOrderQueue) (s : ℕ)
    → IsValid q
    → ((x : ℕ) → Queued (enqueue q s) x ↔ ((x ≡ s) ⊎ Queued q x)) × IsValid (enqueue q s)
enqueue_lem q s v =
    let j = enqueue-Joins q s v in
    let (back, e, lo, hi, inside, low, high) = j.ends in
    let marks : (x : ℕ)
        → test (enqueue q s).enqueued x ≡ (if s == x then true else test q.enqueued x) =
      λ x. ap (λ l. test l x) j.states ∙ test-marked q.enqueued s x in
    let added : (x : ℕ) → Queued (enqueue q s) x ↔ ((x ≡ s) ⊎ Queued q x) = λ x. (
      λ h. elim (Bool-cases (s == x)) [
        | inl same ↦ inl (ground arith)
        | inr other ↦ inr (ground (arith, marks x))
      ],
      ⊎_elim (λ same. ground (arith, marks x)) (λ old. ground (arith, marks x)),
    ) in
    (
      added,
      record {
        between = λ x h.
            ⊎_elim (λ same. (back, e, omega (arith, same), omega (arith, same)))
              (λ old. (back, e, (inside x old).0, (inside x old).1)) ((added x).0 h);
        ends = λ b e' le.
            let eb : b ≡ back = ground (arith, e, e') in
            (
              (added _).1 low,
              (added b).1
                  (⊎_elim (λ k. inl (eb ∙ k)) (λ k. inr (subst (Queued q) (sym eb) k)) high),
            );
      },
    )
