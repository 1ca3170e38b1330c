-- ===== src/Lib.antt =====
-- rustfst: weighted finite-state transducers.
--
-- The program keeps a transducer as a vector of states, each with a final weight and a vector of
-- transitions, over a semiring of weights. Every machine carries a word of property flags, which the
-- operations update and the algorithms trust; a flag that is set and not true makes an algorithm take
-- a shortcut that is wrong. The development follows these layers. Paths are from the repository's
-- root, under rustfst/src where none is given.
--
--   Weights           semirings/semiring.rs: the trait as a record `Semiring`, whose sum and product
--                     may fail, and its flags (LEFT_SEMIRING, …) with the laws they stand for
--     Plain           boolean_weight.rs, trivial_weight.rs
--     Tropical        tropical_weight.rs, over a record `Float` of what f32 promises
--     Strings         string_weight.rs, string_variant.rs: the three string weights and division
--     Product         product_weight.rs
--   Tr                tr.rs
--   Props             fst_properties/properties.rs: the flags; a set of flags is its membership test
--     Masks           the masks of properties.rs
--     Update          mutate_properties.rs, the changes of a machine
--     Transform       mutate_properties.rs, the algorithms
--     Known, Compat   utils.rs
--   Fst               fst_impls/vector_fst: machines and what reads them
--     Mutate          mutable_fst.rs: what changes them
--     Access, Effects what an operation leaves of states, transitions and final weights
--     Valid           well-formed machines
--     Meaning         what the comment on each flag in properties.rs says of a machine
--     Sound           one child for each kind of change
--     Built           the machines that can be built
--     Iter            trs_iter_mut.rs: changing transitions in place
--     Missing         states that do not exist
--     DelStates       mutable_fst.rs, `del_state` and `del_states`: marks, numbering, transitions, the whole
--   Paths             fst_path.rs, fst_traits/paths_iterator.rs
--     Origin          runs, and where a returned path comes from
--     Complete        the iterator on the path of a run
--   Algorithms
--     Loops           `for` loops over a range of indices
--     Relabel         the loop over all transitions of a machine
--     Labels, Shape   what a relabelling keeps
--     Inversion       algorithms/inversion.rs
--     Projection      algorithms/projection.rs
--     Queues          algorithms/queues/state_order_queue.rs; TopOrder: top_order_queue.rs; Plain:
--                     queue.rs and the fifo, lifo and trivial queues
--   IntervalSet       algorithms/compose/interval_set.rs
--   Compose           algorithms/compose: the trait `ComposeFilter` as a record
--     Filters         compose_filters/{sequence,alt_sequence,match}_compose_filter.rs; Trivial: the
--                     trivial, null and no-match filters
--     Matcher         matchers/mod.rs, matchers/sorted_matcher.rs
--     Schedule        orders of moves along two paths, and those that a filter allows
--     Op              compose_fst_op.rs: the expansion of a state of the composition
--   Lazy              algorithms/lazy
--     StateTable      state_table.rs: numbers for the states of a machine that is computed on demand
--     Cache           cache/: the trait `FstCache` with its laws, and the cache that keeps vectors
--     LazyFst         fst_op.rs, lazy_fst.rs: an operation behind a cache
--     Compute         lazy_fst.rs: `compute_bounded`
--   Base              shared notation, lists, results, and what `sort` promises
--
-- State identifiers and labels are natural numbers; only the numbers that `add_state` and the
-- state table give out, and those of `del_states`, are wrapped to 32 bits, as `as StateId` and `as
-- i32` do. The operations that the source marks unsafe change nothing where the source leaves the
-- result open. A counter of epsilons wraps around below zero, as a `usize` does. The loops of
-- `IntervalSet.collapse` and of `Paths.next` run on fuel, since the source's need not end. A round
-- of the first keeps one interval of those that are left, so one round more than there are
-- intervals is enough; the second is given some fuel at each call, as much as the states without
-- final weight that it pops. The other loops are structural, and that of
-- `Algorithms.Queues.advance` gets the `back + 1 - front` rounds that the source's can make. A
-- loop over the items of a sorted matcher is given two rounds more than there are transitions, and
-- the search of `compute_bounded`, which need not end without a budget, two more than its budget.
-- The standard library's `sort` and superslice's `lower_bound` and `lower_bound_by` are parameters
-- with their documented behaviour, and so is the arithmetic of f32, in `Weights.Tropical.Float`:
-- no NaN, the two zeros one value, a rounded sum that is monotone.
--
-- Not modelled: symbol tables, the sharing of transition vectors, input and output, the C
-- interface, the Python bindings, the command line, locks, the state of a lazy operation behind a
-- failed call, the hash-map caches, the look-ahead and sigma matchers, the store of composition
-- states on disk, and of the algorithms other than those above all but the property flags they
-- leave.
pub mod Algorithms
pub mod Base
pub mod Compose
pub mod Fst
pub mod IntervalSet
pub mod Lazy
pub mod Paths
pub mod Props
pub mod Tr
pub mod Weights
