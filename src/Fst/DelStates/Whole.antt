-- ===== src/Fst/DelStates/Whole.antt =====
-- `del_states` as a whole.
use rustfst.Base.{
  ℕ, zero, suc, ◌<◌, ◌≤◌, ◌≡◌, ◌≢◌, ◌↔◌, ◌==◌, refl, sym, subst, ◌∙◌, inl, inr, ⊎_elim, List, [],
  ◌∷◌, length, length-replicate, get_elem?, get_elem?-lt, get_elem?-some, get_elem?-take,
  get_elem?-take_lt, length-take, take, replicate, Option, none, some, ok, Option-cases, Bool-cases,
  arith,
}
use rustfst.Tr.{Tr}
use rustfst.Algorithms.Loops.{for_range}
use rustfst.Props.Update.{delete_states_properties}
use rustfst.Fst.{VectorFstState, VectorFst, num_states}
use rustfst.Fst.Valid.{IsValid}
use rustfst.Fst.DelStates.{deleted, Numbering, renumber, new_start, del_states}
use rustfst.Fst.DelStates.Marks.{Existing, Among, mark_deleted-ok}
use rustfst.Fst.DelStates.Numbers.{Progress, numbering-Progress}
use rustfst.Fst.DelStates.Redirect.{staying, Targets, Each, Redirected, redirect_all-Redirected}

zeros : (n k : ℕ) → get_elem? (replicate n 0) k ≢ some deleted
zeros zero k h = cc
zeros (suc n) zero h = ground arith
zeros (suc n) (suc k) h = zeros n k h

-- The new start is the number of a state that stays.
new_start-lt :
    (new_id : List ℕ) (n : ℕ) (start : Option ℕ)
    → ((s : ℕ) → start ≡ some s → s < length new_id)
    → ((k id : ℕ) → get_elem? new_id k ≡ some id → id ≢ deleted → id < n)
    → (start' : Option ℕ) × (new_start new_id start ≡ ok start')
      × ((s : ℕ) → start' ≡ some s → s < n)
unfolding new_start
new_start-lt new_id n none known below = (none, refl, λ s h. absurd (ground arith))
new_start-lt new_id n (some s) known below =
    let (id, e) = get_elem?-some new_id s (known s refl) in
    elim (Bool-cases (id == deleted)) [
      | inl gone ↦ (none, ground (arith, e, gone), λ s h. absurd (ground arith))
      | inr stays ↦ (
        some id,
        ground (arith, e, stays),
        λ x h.
            let same : id ≡ x = ground arith in
            subst (λ (k : ℕ). k < n) same (below s id e (λ q. ground arith)),
      )
    ]

module _ {W : Type 0} where
  -- What `del_states` leaves: the new numbers of the states, that of a deleted one `deleted`. The states
  -- left are those that stay, in their order: each number below their count is the number of one of
  -- them. A state that stays stands at its number, redirected, and so does the start state.
  pub record Deletes (f : VectorFst W) (dstates : List ℕ) (g : VectorFst W) : Type 0 where
    pub new_id : List ℕ
    pub sized : length new_id ≡ num_states f
    pub gone : (s : ℕ) → (get_elem? new_id s ≡ some deleted) ↔ Among s dstates
    pub stands :
        (s id : ℕ) (st : VectorFstState W)
        → get_elem? f.states s ≡ some st
        → get_elem? new_id s ≡ some id
        → id ≢ deleted
        → (st' : VectorFstState W) × (get_elem? g.states id ≡ some st')
          × Redirected new_id st.trs (record st { trs = [] }) st'
    pub reached :
        (x : ℕ) → x < num_states g → (s : ℕ) × (get_elem? new_id s ≡ some x) × (x ≢ deleted)
    pub ordered :
        (s t x y : ℕ)
        → s < t
        → get_elem? new_id s ≡ some x
        → x ≢ deleted
        → get_elem? new_id t ≡ some y
        → y ≢ deleted
        → x < y
    pub starts : new_start new_id f.start_state ≡ ok g.start_state
    pub flags : g.properties ≡ delete_states_properties f.properties
    pub valid : IsValid g

  at_front :
      (n : ℕ) (x : Tr W) (l : List (Tr W))
      → x.nextstate < n
      → ((i : ℕ) (a : Tr W) → get_elem? l i ≡ some a → a.nextstate < n)
      → (i : ℕ) (a : Tr W) → get_elem? (x ∷ l) i ≡ some a
      → a.nextstate < n
  at_front n x l lt all zero a h =
      let same : x ≡ a = ground arith in subst (λ (y : Tr W). y.nextstate < n) same lt
  at_front n x l lt all (suc i) a h = all i a h

  -- The targets left are numbers of states that stay.
  staying-lt :
      (new_id : List ℕ) (n : ℕ) (trs : List (Tr W))
      → ((k id : ℕ) → get_elem? new_id k ≡ some id → id ≢ deleted → id < n)
      → (i : ℕ) (a : Tr W) → get_elem? (staying new_id trs) i ≡ some a
      → a.nextstate < n
  staying-lt new_id n [] below i a h = cc
  staying-lt new_id n (tr ∷ trs) below i a h = elim (Option-cases (get_elem? new_id tr.nextstate)) [
    | inl e ↦ staying-lt new_id n trs below i a (ground (arith, e))
    | inr (t, e) ↦ elim (Bool-cases (t == deleted)) [
      | inl gone ↦ staying-lt new_id n trs below i a (ground (arith, e, gone))
      | inr stays ↦
          let kept : Tr W = record tr { nextstate = t } in
          at_front n kept (staying new_id trs) (below tr.nextstate t e (λ q. ground arith))
            (staying-lt new_id n trs below) i a (ground (arith, e, stays))
    ]
  ]

  -- The states that stay, redirected, make a valid machine.
  done-IsValid :
      (f g : VectorFst W) (new_id : List ℕ) (states : List (VectorFstState W))
      → IsValid f
      → ((i : ℕ) (st : VectorFstState W)
          → get_elem? states i ≡ some st
          → (j : ℕ) × (get_elem? f.states j ≡ some st))
      → length g.states ≡ length states
      → Each new_id states g.states
      → ((k id : ℕ) → get_elem? new_id k ≡ some id → id ≢ deleted → id < length states)
      → ((s : ℕ) → g.start_state ≡ some s → s < length states)
      → IsValid g
  done-IsValid f g new_id states v from size each below starts =
      let origin : (x : ℕ) (u : VectorFstState W)
          → get_elem? g.states x ≡ some u
          → (st : VectorFstState W) × (j : ℕ) × (get_elem? f.states j ≡ some st)
            × Redirected new_id st.trs (record st { trs = [] }) u =
        λ x u h.
          let lt = get_elem?-lt g.states x h in
          let (st, e) = get_elem?-some states x (omega (arith, lt, size)) in
          let (st', e', r) = each x st e in
          let same : st' ≡ u = ground arith in
          let (j, ej) = from x st e in
          (st, j, ej, subst (Redirected new_id st.trs (record st { trs = [] })) same r) in
      record {
        start_exists = λ s h. omega (arith, starts s h, size);
        counted = λ x u h.
            let (st, j, ej, r) = origin x u h in
            let c = v.counted j st ej in
            record {
              inputs = r.inputs (omega (arith, c.inputs));
              outputs = r.outputs (omega (arith, c.outputs));
            };
        targets = λ x i u a h k.
            let (st, j, ej, r) = origin x u h in
            let lt = staying-lt new_id (length states) st.trs below i a (ground (arith, r.read)) in
            omega (arith, lt, size);
      }

  begun-Progress :
      (f : VectorFst W) (marked : List ℕ)
      → length marked ≡ num_states f
      → Progress marked f.states 0 (record { new_id = marked; states = f.states; nstates = 0 })
  begun-Progress f marked size = record {
    sized = size;
    kept = refl;
    few = omega arith;
    within = λ i a h. (i, h);
    gone = λ k. (λ h. h, λ h. h);
    numbered = λ k id lt. absurd (omega arith);
    hit = λ x lt. absurd (omega arith);
    ordered = λ k l x y lt_l lt. absurd (omega arith);
    waits = λ k le. refl;
  }

  -- `del_states` of existing states of a valid machine with fewer than 2 ^ 32 states succeeds. The
  -- states left are exactly those that were not given, in their order: the numbers of these follow that
  -- order, and every state left has the number of one of them. Each stands at its number with its final
  -- weight, and with those of its transitions, in order and with new targets, that do not lead to a
  -- deleted state; the start state is renumbered, or none if it is deleted. The machine left is valid,
  -- and carries those of its flags that `delete_states_properties` keeps.
  pub del_states_lem :
      (f : VectorFst W) (dstates : List ℕ)
      → IsValid f
      → num_states f ≤ deleted
      → Existing (num_states f) dstates
      → (g : VectorFst W) × (del_states f dstates ≡ ok g) × Deletes f dstates g
  unfolding del_states
  del_states_lem f dstates v room existing =
      let n = num_states f in
      let zeroed = length-replicate n 0 in
      let (marked, e, size, marks) =
        mark_deleted-ok (replicate n 0) dstates
          (subst (λ m. Existing m dstates) (sym zeroed) existing) in
      let from : Numbering W = record { new_id = marked; states = f.states; nstates = 0 } in
      let begun = begun-Progress f marked (size ∙ zeroed) in
      let r = for_range renumber 0 n from in
      let p = numbering-Progress marked f.states n 0 from begun (omega arith) room in
      let left = take r.nstates r.states in
      let many : length left ≡ r.nstates =
        length-take r.nstates r.states (omega (arith, p.few, p.kept)) in
      let below : (k id : ℕ) → get_elem? r.new_id k ≡ some id → id ≢ deleted → id < length left =
        λ k id h real. omega (
          arith,
          (p.numbered k id (omega (arith, get_elem?-lt r.new_id k h, p.sized)) h real).0,
          many,
        ) in
      let origin : (i : ℕ) (st : VectorFstState W)
          → get_elem? left i ≡ some st
          → (j : ℕ) × (get_elem? f.states j ≡ some st) =
        λ i st h. p.within i st (get_elem?-take r.nstates r.states i h) in
      let targets : (i : ℕ) (st : VectorFstState W)
          → get_elem? left i ≡ some st
          → Targets r.new_id st.trs =
        λ i st h k tr e.
          let (j, at) = origin i st h in
          get_elem?-some r.new_id tr.nextstate (omega (arith, v.targets j k st tr at e, p.sized)) in
      let (states, e', same, each) = redirect_all-Redirected r.new_id left targets in
      let (start, e'', start_lt) =
        new_start-lt r.new_id (length left) f.start_state
          (λ s h. omega (arith, v.start_exists s h, p.sized)) below in
      let g : VectorFst W = record {
        states = states;
        start_state = start;
        properties = delete_states_properties f.properties;
      } in
      (
        g,
        ground (arith, e, e', e''),
        record {
          new_id = r.new_id;
          sized = p.sized;
          gone = λ s. (
            λ h.
                ⊎_elim (λ given. given) (λ zero_there. absurd (zeros n s zero_there))
                  ((marks s).0 ((p.gone s).0 h)),
            λ given. (p.gone s).1 ((marks s).1 (inl given)),
          );
          stands = λ s id st h at real.
              let (lt, stood) = p.numbered s id (get_elem?-lt f.states s h) at real in
              each id st (get_elem?-take_lt r.nstates r.states id lt ∙ stood ∙ h);
          reached = λ x lt_x.
              let (s, lt_s, h, real) = p.hit x (omega (arith, lt_x, same, many)) in (s, h, real);
          ordered = λ s t x y lt_t h real_x h' real_y.
              p.ordered s t x y lt_t (omega (arith, get_elem?-lt r.new_id t h', p.sized)) h real_x
                h' real_y;
          starts = e'';
          flags = refl;
          valid = done-IsValid f g r.new_id left v origin same each below start_lt;
        },
      )
