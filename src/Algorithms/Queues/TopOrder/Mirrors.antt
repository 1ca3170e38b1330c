-- ===== src/Algorithms/Queues/TopOrder/Mirrors.antt =====
-- The top-order queue as a state-order queue of the numbers of its states.
use rustfst.Base.{
  ℕ, zero, suc, ◌-◌, ◌<◌, ◌≡◌, ◌==◌, refl, sym, ap, ap₂, subst, ◌∙◌, ltb, if◌then◌else◌, Bool, true,
  false, List, [], ◌∷◌, replicate, length, length-set, get_elem?, get_elem?-some, set, inl, inr,
  Option, none, some, Option-cases, Bool-cases, Result, ok, arith,
}
use native.Mathlib.Decide.{dec_lt, dec_le}
use rustfst.Fst.Access.{get_elem?-set}
use rustfst.Algorithms.Queues.{StateOrderQueue, test, marked, padded}
use rustfst.Algorithms.Queues as Numbers
use rustfst.Algorithms.Queues.StateOrder.{IsValid, test-marked, test-set, test-lt}
use rustfst.Algorithms.Queues.TopOrder.{
  TopOrderQueue, moved, enqueue, advance, is_empty, dequeue, clear, from_precomputed_order,
}
use rustfst.Algorithms.Loops.{for_range}

abbrev pub held : List (Option ℕ) → ℕ → Bool
held state k = elim (get_elem? state k) [
  | none ↦ false
  | some entry ↦ elim entry [ none ↦ false | some _ ↦ true ]
]

-- The numbers of the states in the one queue are the states of the other, and each state stands at its
-- number.
pub record Mirrors (t : TopOrderQueue) (q : StateOrderQueue) : Type 0 where
  pub fronts : t.front ≡ q.front
  pub backs : t.back ≡ q.back
  pub queued : (k : ℕ) → test q.enqueued k ≡ held t.state k
  pub stands : (k s : ℕ) → get_elem? t.state k ≡ some (some s) → get_elem? t.order s ≡ some k
  pub room : (back : ℕ) → t.back ≡ some back → back < length t.state

enqueue-moved :
    (q : StateOrderQueue) (o : ℕ)
    → Numbers.enqueue q o ≡ record {
      front = (moved q.front q.back o).0;
      back = (moved q.front q.back o).1;
      enqueued = set (padded q.enqueued o) o true;
    }
unfolding Numbers.enqueue
enqueue-moved q o = elim (Option-cases q.back) [
  | inl e ↦ ground (arith, e)
  | inr (back, e) ↦ ground (arith, e)
]

moved-room :
    (front : ℕ) (back : Option ℕ) (o n : ℕ)
    → ((b : ℕ) → back ≡ some b → b < n)
    → o < n
    → (b : ℕ) → (moved front back o).1 ≡ some b
    → b < n
moved-room front none o n old new b e = ground (arith, new)
moved-room front (some back) o n old new b e = ground (arith, new, old back refl)

advance-same :
    (state : List (Option ℕ)) (l : List Bool) (back rounds front : ℕ)
    → ((k : ℕ) → test l k ≡ held state k)
    → back < length state
    → advance state back rounds front ≡ ok (Numbers.advance l back rounds front)
unfolding advance Numbers.advance
advance-same state l back zero front same room = refl
advance-same state l back (suc rounds) front same room =
    let ih = advance-same state l back rounds (suc front) same room in
    elim (dec_le front back) [
      | yes le ↦
          let (entry, e) = get_elem?-some state front (omega arith) in
          elim (Option-cases entry) [
            | inl absent ↦ ground (arith, ih, same front, e, absent, le)
            | inr (s, found) ↦ ground (arith, same front, e, found, le)
          ]
      | no past ↦ ground arith
    ]

held-set :
    (state : List (Option ℕ)) (i k : ℕ) (entry : Option ℕ)
    → i < length state
    → held (set state i entry) k
      ≡ (if i == k then elim entry [ none ↦ false | some _ ↦ true ] else held state k)
held-set state i k entry lt = ground (arith, get_elem?-set state i k entry lt)

-- An answer of `enqueue` that mirrors a queue.
abbrev pub Gives : Result TopOrderQueue → StateOrderQueue → Type 0
Gives call q = (next : TopOrderQueue) × (call ≡ ok next) × Mirrors next q

pub enqueue-Mirrors :
    (t : TopOrderQueue) (q : StateOrderQueue) (s o : ℕ)
    → Mirrors t q
    → get_elem? t.order s ≡ some o
    → o < length t.state
    → Gives (enqueue t s) (Numbers.enqueue q o)
unfolding enqueue
enqueue-Mirrors t q s o m e lt =
    let (old, e') = get_elem?-some t.state o lt in
    let next : TopOrderQueue = record {
      order = t.order;
      state = set t.state o (some s);
      front = (moved t.front t.back o).0;
      back = (moved t.front t.back o).1;
    } in
    let size = length-set t.state o (some s) in
    let ends : moved t.front t.back o ≡ moved q.front q.back o =
      ap (λ f. moved f t.back o) m.fronts ∙ ap (λ b. moved q.front b o) m.backs in
    let mirrors : Mirrors next (record {
      front = (moved q.front q.back o).0;
      back = (moved q.front q.back o).1;
      enqueued = set (padded q.enqueued o) o true;
    }) =
      record {
        fronts = ap (λ p. p.0) ends;
        backs = ap (λ p. p.1) ends;
        queued = λ k.
            ground
              (arith, test-marked q.enqueued o k, held-set t.state o k (some s) lt, m.queued k);
        stands = λ k x h. elim (Bool-cases (o == k)) [
          | inl same ↦ ground (arith, get_elem?-set t.state o k (some s) lt, e)
          | inr other ↦ m.stands k x (ground (arith, get_elem?-set t.state o k (some s) lt))
        ];
        room =
            λ b h. ground (arith, size, moved-room t.front t.back o (length t.state) m.room lt b h);
      } in
    (next, ground (arith, e, e'), subst (Mirrors next) (sym (enqueue-moved q o)) mirrors)

-- An answer of `dequeue` for the answer of the queue of numbers.
abbrev pub Serves :
    TopOrderQueue → Result (TopOrderQueue × Option ℕ) → StateOrderQueue × Option ℕ → Type 0
Serves t call r =
    (next : TopOrderQueue) × (answer : Option ℕ) × (call ≡ ok (next, answer))
    × Mirrors next r.0
    × (r.1 ≡ (elim answer [ none ↦ none | some s ↦ get_elem? t.order s ]))

dequeue-Serves :
    (t : TopOrderQueue) (q : StateOrderQueue)
    → Mirrors t q
    → IsValid q
    → Serves t (dequeue t) (Numbers.dequeue q)
unfolding dequeue Numbers.dequeue
dequeue-Serves t q m v = elim (Option-cases t.back) [
  | inl e ↦
      let same : Numbers.dequeue q ≡ (q, none) = ground (arith, m.backs, e) in
      subst (Serves t (dequeue t)) (sym same) (t, none, ground (arith, e), m, refl)
  | inr (back, e) ↦
      let e' : q.back ≡ some back = sym m.backs ∙ e in
      elim (dec_lt back t.front) [
        | yes past ↦
            let same : Numbers.dequeue q ≡ (q, none) = ground (arith, m.fronts, e', past) in
            subst (Serves t (dequeue t)) (sym same) (t, none, ground (arith, e, past), m, refl)
        | no full ↦
            let room = m.room back e in
            let (first, last) = v.ends back e' (omega (arith, m.fronts)) in
            let (old, at) = get_elem?-some t.state t.front (omega (arith, room)) in
            let state = set t.state t.front none in
            let l = set q.enqueued q.front false in
            let queued : (k : ℕ) → test l k ≡ held state k = λ k. ground (
              arith,
              test-set q.enqueued q.front k false (test-lt q.enqueued q.front first),
              held-set t.state t.front k none (omega (arith, room)),
              m.queued k,
              m.fronts,
            ) in
            let size = length-set t.state t.front none in
            let stop = Numbers.advance l back (suc back - q.front) q.front in
            let goes : advance state back (suc back - t.front) t.front ≡ ok stop =
              subst (λ f. advance state back (suc back - f) f ≡ ok stop) (sym m.fronts)
                (advance-same state l back (suc back - q.front) q.front queued
                  (omega (arith, room, size))) in
            let next : TopOrderQueue = record t { state = state; front = stop } in
            let same : Numbers.dequeue q ≡ (record q { front = stop; enqueued = l }, some q.front) =
              ground (arith, e', m.fronts, full) in
            let mirrors : Mirrors next (record q { front = stop; enqueued = l }) = record {
              fronts = refl;
              backs = m.backs;
              queued = queued;
              stands = λ k x h.
                  m.stands k x
                    (ground (arith, get_elem?-set t.state t.front k none (omega (arith, room))));
              room = λ b h. ground (arith, size, m.room b h);
            } in
            elim (Option-cases old) [
              | inl absent ↦ absurd (ground (arith, m.queued q.front, first, m.fronts, at, absent))
              | inr (s, found) ↦
                  let number : get_elem? t.order s ≡ some t.front =
                    m.stands t.front s (at ∙ ap some found) in
                  subst (Serves t (dequeue t)) (sym same) (
                    next,
                    some s,
                    ground (arith, e, at, found, goes, full),
                    mirrors,
                    ground (arith, number, m.fronts),
                  )
            ]
      ]
]

-- The part of `Mirrors` that speaks of the vectors, which each round of `clear` keeps.
record Stand (order : List ℕ) (state : List (Option ℕ)) (l : List Bool) : Type 0 where
  queued : (k : ℕ) → test l k ≡ held state k
  stands : (k s : ℕ) → get_elem? state k ≡ some (some s) → get_elem? order s ≡ some k

test-clear :
    (l : List Bool) (i k : ℕ) → test (set l i false) k ≡ (if i == k then false else test l k)
test-clear [] i k = ground arith
test-clear (b ∷ l) zero zero = refl
test-clear (b ∷ l) zero (suc k) = ground arith
test-clear (b ∷ l) (suc i) zero = ground arith
test-clear (b ∷ l) (suc i) (suc k) = ground (arith, test-clear l i k)

held-clear :
    (state : List (Option ℕ)) (i k : ℕ)
    → held (set state i none) k ≡ (if i == k then false else held state k)
held-clear [] i k = ground arith
held-clear (b ∷ l) zero zero = refl
held-clear (b ∷ l) zero (suc k) = ground arith
held-clear (b ∷ l) (suc i) zero = ground arith
held-clear (b ∷ l) (suc i) (suc k) = ground (arith, held-clear l i k)

still_there :
    (state : List (Option ℕ)) (i k s : ℕ)
    → get_elem? (set state i none) k ≡ some (some s)
    → get_elem? state k ≡ some (some s)
still_there [] i k s h = h
still_there (b ∷ l) zero zero s h = ground arith
still_there (b ∷ l) zero (suc k) s h = h
still_there (b ∷ l) (suc i) zero s h = h
still_there (b ∷ l) (suc i) (suc k) s h = still_there l i k s h

clear-Stand :
    (order : List ℕ) (n i : ℕ) (state : List (Option ℕ)) (l : List Bool)
    → Stand order state l
    → Stand order
        (for_range (λ m j. set m j none) i n state)
        (for_range (λ m j. set m j false) i n l)
unfolding for_range
clear-Stand order zero i state l h = h
clear-Stand order (suc n) i state l h =
    clear-Stand order n (suc i) (set state i none) (set l i false) (record {
      queued = λ k. ground (arith, test-clear l i k, held-clear state i k, h.queued k);
      stands = λ k s e. h.stands k s (still_there state i k s e);
    })

clear-Mirrors :
    (t : TopOrderQueue) (q : StateOrderQueue) → Mirrors t q → Mirrors (clear t) (Numbers.clear q)
unfolding clear Numbers.clear
clear-Mirrors t q m =
    let from : Stand t.order t.state q.enqueued = record { queued = m.queued; stands = m.stands } in
    let left : Stand t.order (clear t).state (Numbers.clear q).enqueued =
      elim (Option-cases t.back) [
        | inl e ↦ ground (arith, e, m.backs, from)
        | inr (back, e) ↦
            let h = clear-Stand t.order (suc back - t.front) t.front t.state q.enqueued from in
            ground (arith, e, m.backs, m.fronts, h)
      ] in
    record {
      fronts = refl;
      backs = refl;
      queued = left.queued;
      stands = left.stands;
      room = λ b h. ground arith;
    }

held-replicate : (n k : ℕ) → held (replicate n none) k ≡ false
held-replicate zero k = refl
held-replicate (suc n) zero = refl
held-replicate (suc n) (suc k) = held-replicate n k

pub new-Mirrors : (order : List ℕ) → Mirrors (from_precomputed_order order) Numbers.default
new-Mirrors order = record {
  fronts = refl;
  backs = refl;
  queued = λ k. sym (held-replicate (length order) k);
  stands = λ k s h. absurd (ground (arith, held-replicate (length order) k));
  room = λ b h. ground arith;
}

is_empty-same :
    (t : TopOrderQueue) (q : StateOrderQueue) → Mirrors t q → is_empty t ≡ Numbers.is_empty q
unfolding Numbers.is_empty
is_empty-same t q m =
    ap₂ (λ (b : Option ℕ) (f : ℕ). elim b as (λ _. Bool) [ none ↦ true | some back ↦ ltb back f ])
      m.backs m.fronts

-- The top-order queue refines the queue of least numbers. Let it mirror a valid queue of numbers, and
-- let a state have a number in the order and room in the vector. Then `enqueue` of the state succeeds
-- and mirrors `enqueue` of its number. `dequeue` does not panic: it answers nothing where the other
-- answers nothing, and otherwise a state with the number that the other answers, and the two left are
-- alike. `is_empty` says the same, `clear` keeps them alike, and a new queue mirrors the empty one.
pub top_order_queue_lem :
    (t : TopOrderQueue) (q : StateOrderQueue) (s o : ℕ)
    → Mirrors t q
    → IsValid q
    → get_elem? t.order s ≡ some o
    → o < length t.state
    → Gives (enqueue t s) (Numbers.enqueue q o)
      × Serves t (dequeue t) (Numbers.dequeue q)
      × (is_empty t ≡ Numbers.is_empty q)
      × Mirrors (clear t) (Numbers.clear q)
      × Mirrors (from_precomputed_order t.order) Numbers.default
top_order_queue_lem t q s o m v e lt = (
  enqueue-Mirrors t q s o m e lt,
  dequeue-Serves t q m v,
  is_empty-same t q m,
  clear-Mirrors t q m,
  new-Mirrors t.order,
)
