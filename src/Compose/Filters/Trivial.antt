-- ===== src/Compose/Filters/Trivial.antt =====
-- rustfst/src/algorithms/compose/compose_filters/{trivial,null,no_match}_compose_filter.rs: the filters
-- without a state of their own. Their filter state is a Boolean, `false` where a pair is not allowed.
use rustfst.Base.{◌==◌, if◌then◌else◌, Bool, true, false, not, ◌||◌, ok}
use rustfst.Tr.{Tr, eps_label}
use rustfst.Compose.{ComposeFilter, no_label}

abbrev same_state : Bool → Bool → Bool
same_state true true = true
same_state false false = true
same_state _ _ = false

module _ {W : Type 0} where
  -- A filter that looks at the labels alone.
  abbrev by_labels : (Tr W → Tr W → Bool) → ComposeFilter W
  by_labels allowed = record {
    Fs = Bool;
    Filter = Unit;
    no_state = false;
    equals = same_state;
    start = true;
    build = tt;
    set_state = λ filter s1 s2 fs. ok filter;
    filter_tr = λ filter arc1 arc2. allowed arc1 arc2;
  }

  abbrev pub trivial_filter : ComposeFilter W
  trivial_filter = by_labels (λ arc1 arc2. true)

  abbrev pub null_filter : ComposeFilter W
  null_filter =
      by_labels (λ arc1 arc2.
        if (arc1.olabel == no_label) || (arc2.ilabel == no_label) then false else true)

  abbrev pub no_match_filter : ComposeFilter W
  no_match_filter =
      by_labels (λ arc1 arc2. not (arc1.olabel == eps_label) || not (arc2.ilabel == eps_label))
