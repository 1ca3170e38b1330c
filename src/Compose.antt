-- ===== src/Compose.antt =====
-- rustfst/src/algorithms/compose: the composition of two machines. Here is what its parts share: the
-- matchers' constants, and the trait `ComposeFilter` as a record of operations.
pub mod Filters
pub mod Matcher
pub mod Schedule
pub mod Op
pub mod Tests
use rustfst.Base.{ℕ, Bool, Result, ok, ◌>>=◌}
use rustfst.Tr.{Tr, eps_label}
use rustfst.Weights.{Semiring}
use rustfst.Fst.{VectorFst}

-- `u32::MAX`
abbrev pub no_label : ℕ
no_label = 4294967295

abbrev pub no_state_id : ℕ
no_state_id = 4294967295

-- The trait `ComposeFilter` with its filter state `Fs`: a filter is built, is set to a state of the
-- composition, and tells the filter state behind a pair of transitions. The trait's `filter_tr` may fail
-- and may change the two transitions; that of each filter modelled does neither, so here it is a
-- function to the filter state. `filter_final`, which changes nothing in these filters, is left out, and
-- so are the matchers that a filter holds.
pub record ComposeFilter (W : Type 0) : Type 1 where
  pub Fs : Type 0
  pub Filter : Type 0
  pub no_state : Fs
  pub equals : Fs → Fs → Bool
  pub start : Fs
  pub build : Filter
  pub set_state : Filter → ℕ → ℕ → Fs → Result Filter
  pub filter_tr : Filter → Tr W → Tr W → Fs

-- What `compute_trs` asks of a fresh filter about a pair of transitions at a state.
unfoldable pub decide :
    {W : Type 0} (cf : ComposeFilter W) → ℕ → ℕ → cf.Fs → Tr W → Tr W → Result cf.Fs
decide cf s1 s2 fs tr1 tr2 =
    cf.set_state cf.build s1 s2 fs >>= λ filter. ok (cf.filter_tr filter tr1 tr2)

module _ {W : Type 0} ⦃sr : Semiring W⦄ where
  -- `eps_loop`: the loop at which one machine waits while the other follows an epsilon.
  abbrev pub eps_loop_input : ℕ → Tr W
  eps_loop_input state = record {
    ilabel = no_label;
    olabel = eps_label;
    weight = sr.one;
    nextstate = state;
  }

  abbrev pub eps_loop_output : ℕ → Tr W
  eps_loop_output state = record {
    ilabel = eps_label;
    olabel = no_label;
    weight = sr.one;
    nextstate = state;
  }
