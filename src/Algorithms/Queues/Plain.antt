-- ===== src/Algorithms/Queues/Plain.antt =====
-- rustfst/src/algorithms/queues/{fifo,lifo,trivial}_queue.rs: the queues that do not look at the states,
-- and the trait `Queue` of algorithms/queue.rs as a record. A `head` that changes the queue, and
-- `queue_type`, are left out.
use rustfst.Base.{
  ℕ, ◌-◌, Bool, true, false, List, [], ◌∷◌, ◌++◌, length, get_elem?, take, Option, none, some,
}

pub record Queue : Type 1 where
  pub State : Type 0
  pub head : State → Option ℕ
  pub enqueue : State → ℕ → State
  pub dequeue : State → State × Option ℕ
  pub update : State → ℕ → State
  pub is_empty : State → Bool
  pub clear : State → State

-- A vector is empty.
abbrev vec_is_empty : List ℕ → Bool
vec_is_empty [] = true
vec_is_empty (s ∷ l) = false

abbrev pop_front : List ℕ → List ℕ × Option ℕ
pop_front [] = ([], none)
pop_front (s ∷ l) = (l, some s)

abbrev pub fifo_queue : Queue
fifo_queue = record {
  State = List ℕ;
  head = λ q. get_elem? q 0;
  enqueue = λ q s. q ++ s ∷ [];
  dequeue = pop_front;
  update = λ q s. q;
  is_empty = vec_is_empty;
  clear = λ q. [];
}

abbrev pop : List ℕ → List ℕ × Option ℕ
pop q = (take (length q - 1) q, get_elem? q (length q - 1))

abbrev pub lifo_queue : Queue
lifo_queue = record {
  State = List ℕ;
  head = λ q. get_elem? q (length q - 1);
  enqueue = λ q s. q ++ s ∷ [];
  dequeue = pop;
  update = λ q s. q;
  is_empty = vec_is_empty;
  clear = λ q. [];
}

abbrev pub trivial_queue : Queue
trivial_queue = record {
  State = Option ℕ;
  head = λ q. q;
  enqueue = λ q s. some s;
  dequeue = λ q. (none, q);
  update = λ q s. q;
  is_empty = λ q. elim q [ none ↦ true | some _ ↦ false ];
  clear = λ q. none;
}
