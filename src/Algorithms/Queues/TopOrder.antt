-- ===== src/Algorithms/Queues/TopOrder.antt =====
-- rustfst/src/algorithms/queues/top_order_queue.rs: the queue that serves states in a given order.
pub mod Mirrors
use rustfst.Base.{
  ℕ, zero, suc, ◌-◌, ltb, leb, if◌then◌else◌, Bool, true, List, length, get_elem?, set, replicate,
  Option, none, some, Result, ok, ◌>>=◌, index,
}
use rustfst.Algorithms.Loops.{for_range}

pub record TopOrderQueue : Type 0 where
  pub order : List ℕ
  pub state : List (Option ℕ)
  pub front : ℕ
  pub back : Option ℕ

abbrev pub from_precomputed_order : List ℕ → TopOrderQueue
from_precomputed_order order = record {
  order = order;
  state = replicate (length order) none;
  front = 0;
  back = none;
}

abbrev pub head : TopOrderQueue → Result (Option ℕ)
head q = index q.state q.front

-- `front` and `back` after a state whose number in the order is `o`.
abbrev pub moved : ℕ → Option ℕ → ℕ → ℕ × Option ℕ
moved front none o = (o, some o)
moved front (some back) o =
    if ltb back front
    then (o, some o)
    else if ltb back o
    then (front, some o)
    else if ltb o front
    then (o, some back)
    else (front, some back)

unfoldable pub enqueue : TopOrderQueue → ℕ → Result TopOrderQueue
enqueue q s = index q.order s >>= λ o. index q.state o >>= λ old. ok (record {
  order = q.order;
  state = set q.state o (some s);
  front = (moved q.front q.back o).0;
  back = (moved q.front q.back o).1;
})

-- The loop `while self.front <= back_val && self.state[self.front].is_none() { self.front += 1 }`,
-- which makes at most `back_val + 1 - front` rounds.
unfoldable pub advance : List (Option ℕ) → ℕ → ℕ → ℕ → Result ℕ
advance state back zero front = ok front
advance state back (suc rounds) front =
    let rest = advance state back rounds (suc front) in
    if leb front back
    then (index state front >>= λ entry. elim entry [ none ↦ rest | some _ ↦ ok front ])
    else ok front

abbrev pub is_empty : TopOrderQueue → Bool
is_empty q = elim q.back [ none ↦ true | some back ↦ ltb back q.front ]

unfoldable pub dequeue : TopOrderQueue → Result (TopOrderQueue × Option ℕ)
unfolding advance
dequeue q = elim q.back [
  | none ↦ ok (q, none)
  | some back ↦
      if ltb back q.front
      then ok (q, none)
      else index q.state q.front >>= λ old_head.
          advance (set q.state q.front none) back (suc back - q.front) q.front >>= λ front.
          ok (record q { state = set q.state q.front none; front = front }, old_head)
]

-- The loop of `clear`; a number out of range, where the source panics, is passed over.
unfoldable pub clear : TopOrderQueue → TopOrderQueue
unfolding for_range
clear q =
    let state : List (Option ℕ) = elim q.back [
      | none ↦ q.state
      | some back ↦ for_range (λ l i. set l i none) q.front (suc back - q.front) q.state
    ] in
    record { order = q.order; state = state; front = 0; back = none }
