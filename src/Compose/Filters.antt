-- ===== src/Compose/Filters.antt =====
-- rustfst/src/algorithms/compose/compose_filters: the filters that choose one of the ways in which the
-- epsilons of two machines can be read.
pub mod Trivial
use rustfst.Base.{ℕ, ◌==◌, if◌then◌else◌, Bool, false, not, ◌&&◌, none, some, Result, ok, ◌>>=◌}
use rustfst.Tr.{Tr, eps_label}
use rustfst.Weights.{Semiring, is_zero}
use rustfst.Fst.{VectorFst, final_weight, num_trs, num_input_epsilons, num_output_epsilons}
use rustfst.Compose.{ComposeFilter, no_label, no_state_id}

-- The state of `SequenceComposeFilter`, and of `AltSequenceComposeFilter` with the second machine in
-- place of the first.
pub record SequenceState : Type 0 where
  pub s1 : ℕ
  pub s2 : ℕ
  pub fs : ℕ
  pub alleps : Bool
  pub noeps : Bool

pub record MatchState : Type 0 where
  pub s1 : ℕ
  pub s2 : ℕ
  pub fs : ℕ
  pub alleps1 : Bool
  pub alleps2 : Bool
  pub noeps1 : Bool
  pub noeps2 : Bool

-- `build`
abbrev pub sequence_build : SequenceState
sequence_build = record {
  s1 = no_state_id;
  s2 = no_state_id;
  fs = no_state_id;
  alleps = false;
  noeps = false;
}

abbrev pub match_build : MatchState
match_build = record {
  s1 = no_state_id;
  s2 = no_state_id;
  fs = no_state_id;
  alleps1 = false;
  alleps2 = false;
  noeps1 = false;
  noeps2 = false;
}

module _ {W : Type 0} where
  unfoldable pub sequence_filter_tr : SequenceState → Tr W → Tr W → ℕ
  sequence_filter_tr filter arc1 arc2 =
      if arc1.olabel == no_label
      then (if filter.alleps then no_state_id else if filter.noeps then 0 else 1)
      else if arc2.ilabel == no_label
      then (if not (filter.fs == 0) then no_state_id else 0)
      else if arc1.olabel == eps_label
      then no_state_id
      else 0

  unfoldable pub alt_sequence_filter_tr : SequenceState → Tr W → Tr W → ℕ
  alt_sequence_filter_tr filter arc1 arc2 =
      if arc2.ilabel == no_label
      then (if filter.alleps then no_state_id else if filter.noeps then 0 else 1)
      else if arc1.olabel == no_label
      then (if filter.fs == 1 then no_state_id else 0)
      else if arc1.olabel == eps_label
      then no_state_id
      else 0

  unfoldable pub match_filter_tr : MatchState → Tr W → Tr W → ℕ
  match_filter_tr filter arc1 arc2 =
      if arc2.ilabel == no_label
      then (if filter.fs == 0
          then (if filter.noeps2 then 0 else if filter.alleps2 then no_state_id else 1)
          else if filter.fs == 1
          then 1
          else no_state_id)
      else if arc1.olabel == no_label
      then (if filter.fs == 0
          then (if filter.noeps1 then 0 else if filter.alleps1 then no_state_id else 2)
          else if filter.fs == 2
          then 2
          else no_state_id)
      else if arc1.olabel == eps_label
      then (if filter.fs == 0 then 0 else no_state_id)
      else 0

module _ {W : Type 0} ⦃sr : Semiring W⦄ where
  -- `Fst::is_final`, by which a state of final weight zero is not final.
  unfoldable pub is_final : VectorFst W → ℕ → Result Bool
  unfolding is_zero
  is_final f state = final_weight f state >>= λ weight.
      ok (elim weight [ none ↦ false | some w ↦ not (is_zero w) ])

  unfoldable pub sequence_set_state : VectorFst W → SequenceState → ℕ → ℕ → ℕ → Result SequenceState
  unfolding is_final num_trs num_output_epsilons
  sequence_set_state fst1 filter s1 s2 fs =
      if (filter.s1 == s1) && (filter.s2 == s2) && (filter.fs == fs)
      then ok filter
      else num_trs fst1 s1 >>= λ na1. num_output_epsilons fst1 s1 >>= λ ne1.
          is_final fst1 s1 >>= λ fin1. ok (record {
            s1 = s1;
            s2 = s2;
            fs = fs;
            alleps = (na1 == ne1) && not fin1;
            noeps = ne1 == 0;
          })

  unfoldable pub alt_sequence_set_state :
      VectorFst W → SequenceState → ℕ → ℕ → ℕ → Result SequenceState
  unfolding is_final num_trs num_input_epsilons
  alt_sequence_set_state fst2 filter s1 s2 fs =
      if (filter.s1 == s1) && (filter.s2 == s2) && (filter.fs == fs)
      then ok filter
      else num_trs fst2 s2 >>= λ na2. num_input_epsilons fst2 s2 >>= λ ne2.
          is_final fst2 s2 >>= λ fin2. ok (record {
            s1 = s1;
            s2 = s2;
            fs = fs;
            alleps = (na2 == ne2) && not fin2;
            noeps = ne2 == 0;
          })

  unfoldable pub match_set_state :
      VectorFst W → VectorFst W → MatchState → ℕ → ℕ → ℕ → Result MatchState
  unfolding is_final num_trs num_input_epsilons num_output_epsilons
  match_set_state fst1 fst2 filter s1 s2 fs =
      if (filter.s1 == s1) && (filter.s2 == s2) && (filter.fs == fs)
      then ok filter
      else num_trs fst1 s1 >>= λ na1. num_trs fst2 s2 >>= λ na2.
          num_output_epsilons fst1 s1 >>= λ ne1. num_input_epsilons fst2 s2 >>= λ ne2.
          is_final fst1 s1 >>= λ f1. is_final fst2 s2 >>= λ f2. ok (record {
            s1 = s1;
            s2 = s2;
            fs = fs;
            alleps1 = (na1 == ne1) && not f1;
            alleps2 = (na2 == ne2) && not f2;
            noeps1 = ne1 == 0;
            noeps2 = ne2 == 0;
          })

  -- The filters as instances of the trait.
  abbrev pub sequence_filter : VectorFst W → ComposeFilter W
  sequence_filter fst1 = record {
    Fs = ℕ;
    Filter = SequenceState;
    no_state = no_state_id;
    equals = ◌==◌;
    start = 0;
    build = sequence_build;
    set_state = sequence_set_state fst1;
    filter_tr = sequence_filter_tr;
  }

  abbrev pub alt_sequence_filter : VectorFst W → ComposeFilter W
  alt_sequence_filter fst2 = record {
    Fs = ℕ;
    Filter = SequenceState;
    no_state = no_state_id;
    equals = ◌==◌;
    start = 0;
    build = sequence_build;
    set_state = alt_sequence_set_state fst2;
    filter_tr = alt_sequence_filter_tr;
  }

  abbrev pub match_filter : VectorFst W → VectorFst W → ComposeFilter W
  match_filter fst1 fst2 = record {
    Fs = ℕ;
    Filter = MatchState;
    no_state = no_state_id;
    equals = ◌==◌;
    start = 0;
    build = match_build;
    set_state = match_set_state fst1 fst2;
    filter_tr = match_filter_tr;
  }
