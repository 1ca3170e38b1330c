-- ===== src/Algorithms/Tests.antt =====
-- The algorithms on a machine with one transition 5:6 and a loop 7:0.
use rustfst.Base.{ℕ, ◌⊎◌, some, arith, ◌≡◌, ◌↔◌, refl, sym, subst, none, List, [], ◌∷◌, ok-inj}
use rustfst.Weights.Plain.{boolean_weight}
use rustfst.Props.Transform.{project_input}
use rustfst.Fst.{trs_of}
use rustfst.Fst.Mutate.{set_properties_with_mask}
use rustfst.Fst.Valid.{IsValid}
use rustfst.Fst.Meaning.{IsSound}
use rustfst.Fst.Iter.{with_iter, set_labels_unchecked}
use rustfst.Paths.{paths_iter}
use rustfst.Paths.Origin.{Yields}
use rustfst.Paths.Tests.{one_tr, five_six, boolean-NeverFails}
use rustfst.Algorithms.Inversion.Paths.{inverted_path, invert_paths_lem}
use rustfst.Fst.Tests.{with_loop, forth_tr, with_loop-IsValid, with_loop-IsSound}
use rustfst.Algorithms.Queues
use rustfst.Algorithms.Queues.{StateOrderQueue, enqueue, dequeue, is_empty, advance}
use rustfst.Algorithms.Queues.StateOrder
use rustfst.Algorithms.Queues.StateOrder.{enqueue_lem, dequeue_lem}
use rustfst.Algorithms.Queues.TopOrder as TopOrder
use rustfst.Algorithms.Queues.TopOrder.{TopOrderQueue}
use rustfst.Algorithms.Queues.TopOrder.Mirrors.{
  Mirrors, Gives, Serves, new-Mirrors, enqueue-Mirrors, top_order_queue_lem,
}
use rustfst.Algorithms.Loops.{for_range}
use rustfst.Algorithms.Relabel.{Relabels, for_each_tr}
use rustfst.Algorithms.Inversion.{invert, invert_tr, inverted, invert_lem}
use rustfst.Algorithms.Projection.{project, projected}
use rustfst.Algorithms.Projection.Flags.{project_lem}

invert-computes : trs_of (invert with_loop) 0 ≡ record forth_tr { ilabel = 6; olabel = 5 } ∷ []
unfolding invert invert_tr for_each_tr for_range with_iter set_labels_unchecked
    set_properties_with_mask with_loop
invert-computes = refl

invert_lem_example :
    Relabels inverted with_loop (invert with_loop)
    × IsValid (invert with_loop)
    × IsSound ⦃sr = boolean_weight⦄ (invert with_loop)
invert_lem_example = invert_lem ⦃sr = boolean_weight⦄ with_loop with_loop-IsValid with_loop-IsSound

project_lem_example :
    Relabels (projected project_input) with_loop (project with_loop project_input)
    × IsValid (project with_loop project_input)
    × IsSound ⦃sr = boolean_weight⦄ (project with_loop project_input)
project_lem_example =
    project_lem ⦃sr = boolean_weight⦄ with_loop project_input with_loop-IsValid with_loop-IsSound

invert_paths_example :
    Yields ⦃sr = boolean_weight⦄
      (invert one_tr)
      (paths_iter ⦃sr = boolean_weight⦄ (invert one_tr))
      (inverted_path five_six)
    ↔ Yields ⦃sr = boolean_weight⦄ one_tr (paths_iter ⦃sr = boolean_weight⦄ one_tr) five_six
invert_paths_example =
    invert_paths_lem ⦃sr = boolean_weight⦄ one_tr (inverted_path five_six) boolean-NeverFails

-- The states 4 and 2, enqueued in this order.
abbrev four : StateOrderQueue
unfolding enqueue
four = enqueue Queues.default 4

default-IsValid : StateOrder.IsValid Queues.default
default-IsValid = record {
  between = λ s h. absurd (ground arith);
  ends = λ b e. absurd (ground arith);
}

enqueue_lem_example :
    ((x : ℕ) → StateOrder.Queued (enqueue four 2) x ↔ ((x ≡ 2) ⊎ StateOrder.Queued four x))
    × StateOrder.IsValid (enqueue four 2)
unfolding four enqueue
enqueue_lem_example = enqueue_lem four 2 (enqueue_lem Queues.default 4 default-IsValid).1

dequeue_lem_example : StateOrder.ServesLeast four (dequeue four)
unfolding is_empty enqueue four
dequeue_lem_example = dequeue_lem four (enqueue_lem Queues.default 4 default-IsValid).1 refl

dequeue-two : (dequeue (enqueue four 2)).1 ≡ some 2
unfolding enqueue dequeue advance four
dequeue-two = refl

-- State 1 is the first, 2 the second and 0 the last, and 0 is enqueued.
abbrev one_two_zero : List ℕ
one_two_zero = 2 ∷ 0 ∷ 1 ∷ []

abbrev waiting : TopOrderQueue
waiting = record {
  order = one_two_zero;
  state = none ∷ none ∷ some 0 ∷ [];
  front = 2;
  back = some 2;
}

waiting-Mirrors : Mirrors waiting (enqueue Queues.default 2)
unfolding TopOrder.enqueue
waiting-Mirrors =
    let (next, e, m) =
      enqueue-Mirrors (TopOrder.from_precomputed_order one_two_zero) Queues.default 0 2
        (new-Mirrors one_two_zero) refl (omega arith) in
    subst (λ t. Mirrors t (enqueue Queues.default 2)) (sym (ok-inj e)) m

top_order_queue_example :
    Gives (TopOrder.enqueue waiting 1) (enqueue (enqueue Queues.default 2) 0)
    × Serves waiting (TopOrder.dequeue waiting) (dequeue (enqueue Queues.default 2))
    × (TopOrder.is_empty waiting ≡ is_empty (enqueue Queues.default 2))
    × Mirrors (TopOrder.clear waiting) (Queues.clear (enqueue Queues.default 2))
    × Mirrors (TopOrder.from_precomputed_order one_two_zero) Queues.default
top_order_queue_example =
    top_order_queue_lem waiting (enqueue Queues.default 2) 1 0 waiting-Mirrors
      (enqueue_lem Queues.default 2 default-IsValid).1 refl (omega arith)
