-- ===== src/Algorithms/Queues.antt =====
-- rustfst/src/algorithms/queues/state_order_queue.rs: the queue that serves the least state first.
pub mod StateOrder
pub mod TopOrder
pub mod Plain
use rustfst.Base.{
  ℕ, zero, suc, ◌+◌, ◌-◌, ◌≡◌, ◌==◌, ltb, leb, if◌then◌else◌, Bool, true, false, not, ◌&&◌, ◌||◌,
  List, [], ◌∷◌, ◌++◌, length, get_elem?, set, replicate, Option, none, some,
}
use rustfst.Algorithms.Loops.{for_range}

pub record StateOrderQueue : Type 0 where
  pub front : ℕ
  pub back : Option ℕ
  pub enqueued : List Bool

-- `enqueued[state]`; a state out of range, where the source panics, counts as not enqueued.
abbrev pub test : List Bool → ℕ → Bool
test enqueued state = elim (get_elem? enqueued state) [ none ↦ false | some b ↦ b ]

unfoldable pub is_empty : StateOrderQueue → Bool
is_empty q = elim q.back [ none ↦ true | some back ↦ ltb back q.front ]

-- The loop `while self.enqueued.len() <= state { self.enqueued.push(false) }`.
abbrev pub padded : List Bool → ℕ → List Bool
padded enqueued state = enqueued ++ replicate (suc state - length enqueued) false

abbrev pub marked : StateOrderQueue → ℕ → StateOrderQueue
marked q state = record q { enqueued = set (padded q.enqueued state) state true }

unfoldable pub enqueue : StateOrderQueue → ℕ → StateOrderQueue
enqueue q state = elim q.back [
  | none ↦ marked (record q { front = state; back = some state }) state
  | some back ↦
      if ltb back q.front
      then marked (record q { front = state; back = some state }) state
      else if ltb back state
      then marked (record q { back = some state }) state
      else if ltb state q.front
      then marked (record q { front = state }) state
      else marked q state
]

-- The loop `while self.front <= back && !self.enqueued[self.front] { self.front += 1 }`, which makes at
-- most `back + 1 - front` rounds.
unfoldable pub advance : List Bool → ℕ → ℕ → ℕ → ℕ
advance enqueued back zero front = front
advance enqueued back (suc rounds) front =
    let rest = advance enqueued back rounds (suc front) in
    if leb front back && not (test enqueued front) then rest else front

unfoldable pub dequeue : StateOrderQueue → StateOrderQueue × Option ℕ
unfolding is_empty advance
dequeue q = elim q.back [
  | none ↦ (q, none)
  | some back ↦ if ltb back q.front then (q, none) else (
    record q {
      front = advance (set q.enqueued q.front false) back (suc back - q.front) q.front;
      enqueued = set q.enqueued q.front false;
    },
    some q.front,
  )
]

-- `StateOrderQueue::default`
abbrev pub default : StateOrderQueue
default = record { front = 0; back = none; enqueued = [] }

-- `head`, which does not ask whether the queue is empty.
unfoldable pub head : StateOrderQueue → Option ℕ
head q = some q.front

unfoldable pub clear : StateOrderQueue → StateOrderQueue
unfolding for_range
clear q =
    let enqueued : List Bool = elim q.back [
      | none ↦ q.enqueued
      | some back ↦ for_range (λ l i. set l i false) q.front (suc back - q.front) q.enqueued
    ] in
    record { front = 0; back = none; enqueued = enqueued }
