-- ===== src/Fst/DelStates/Numbers.antt =====
-- The numbers that `del_states` gives to the states that stay.
use rustfst.Base.{
  ℕ, zero, suc, ◌+◌, ◌<◌, ◌≤◌, ◌≡◌, ◌≢◌, ◌↔◌, ◌==◌, refl, sym, ap, subst, ◌∙◌, inl, inr,
  if◌then◌else◌, List, length, length-set, get_elem?, get_elem?-lt, get_elem?-some, set, some,
  Option-cases, Bool-cases, u32, u32_small, arith,
}
use native.Mathlib.Decide.{dec_lt}
use rustfst.Algorithms.Loops.{for_range}
use rustfst.Fst.{VectorFstState}
use rustfst.Fst.Access.{get_elem?-set}
use rustfst.Fst.DelStates.{deleted, swap, Numbering, renumber}

-- Every element of one list is an element of the other.
abbrev pub Within {ℓ} : {A : Type ℓ} → List A → List A → Type ℓ
Within xs ys = (i : ℕ) (a : _) → get_elem? xs i ≡ some a → (j : ℕ) × (get_elem? ys j ≡ some a)

swap-Within : {A : Type 0} (l : List A) (i j : ℕ) → Within (swap l i j) l
swap-Within l i j k a h = elim (Option-cases (get_elem? l i)) [
  | inl e ↦ (k, ground (arith, e))
  | inr (x, e) ↦ elim (Option-cases (get_elem? l j)) [
    | inl e' ↦ (k, ground (arith, e, e'))
    | inr (y, e') ↦
        let lt_i = get_elem?-lt l i e in
        let lt_j = get_elem?-lt l j e' in
        let size = length-set l i y in
        let outer = get_elem?-set (set l i y) j k x (omega (arith, size, lt_j)) in
        let inner = get_elem?-set l i k y lt_i in
        let h' : get_elem? (set (set l i y) j x) k ≡ some a = ground (arith, e, e') in
        elim (Bool-cases (j == k)) [
          | inl at_j ↦ (i, ground (arith, outer))
          | inr not_j ↦ elim (Bool-cases (i == k)) [
            | inl at_i ↦ (j, ground (arith, outer, inner))
            | inr not_i ↦ (k, ground (arith, outer, inner))
          ]
        ]
  ]
]

get_elem?-swap :
    {A : Type 0} (l : List A) (i j k : ℕ) (a b : A)
    → get_elem? l i ≡ some a
    → get_elem? l j ≡ some b
    → get_elem? (swap l i j) k
      ≡ (if j == k then some a else if i == k then some b else get_elem? l k)
get_elem?-swap l i j k a b ea eb =
    let size = length-set l i b in
    let outer = get_elem?-set (set l i b) j k a (omega (arith, size, get_elem?-lt l j eb)) in
    ground (arith, ea, eb, outer, get_elem?-set l i k b (get_elem?-lt l i ea))

length-swap : {A : Type 0} (l : List A) (i j : ℕ) → length (swap l i j) ≡ length l
length-swap l i j = elim (Option-cases (get_elem? l i)) [
  | inl e ↦ ground (arith, e)
  | inr (x, e) ↦ elim (Option-cases (get_elem? l j)) [
    | inl e' ↦ ground (arith, e, e')
    | inr (y, e') ↦ ground (arith, e, e', length-set (set l i y) j x, length-set l i y)
  ]
]

module _ {W : Type 0} (marked : List ℕ) (old : List (VectorFstState W)) where
  -- After `i` rounds: the deleted states are those marked, each of the other first `i` stands at its
  -- number, the numbers are those below `nstates` and follow the order of the states, and the states
  -- from `i` on stand where they stood.
  pub record Progress (i : ℕ) (r : Numbering W) : Type 0 where
    pub sized : length r.new_id ≡ length old
    pub kept : length r.states ≡ length old
    pub few : r.nstates ≤ i
    pub within : Within r.states old
    pub gone : (k : ℕ) → (get_elem? r.new_id k ≡ some deleted) ↔ (get_elem? marked k ≡ some deleted)
    pub numbered :
        (k id : ℕ)
        → k < i
        → get_elem? r.new_id k ≡ some id
        → id ≢ deleted
        → (id < r.nstates) × (get_elem? r.states id ≡ get_elem? old k)
    pub hit :
        (x : ℕ)
        → x < r.nstates
        → (k : ℕ) × (k < i) × (get_elem? r.new_id k ≡ some x) × (x ≢ deleted)
    pub ordered :
        (k l x y : ℕ)
        → k < l
        → l < i
        → get_elem? r.new_id k ≡ some x
        → x ≢ deleted
        → get_elem? r.new_id l ≡ some y
        → y ≢ deleted
        → x < y
    pub waits : (k : ℕ) → i ≤ k → get_elem? r.states k ≡ get_elem? old k

  -- The new number of one state that stays, and what the states must be behind it.
  moved-Progress :
      (i : ℕ) (r : Numbering W) (states : List (VectorFstState W)) (id : ℕ)
      → Progress i r
      → i < length old
      → length old ≤ deleted
      → get_elem? r.new_id i ≡ some id
      → id ≢ deleted
      → length states ≡ length old
      → Within states old
      → get_elem? states r.nstates ≡ get_elem? old i
      → ((k : ℕ) → k < r.nstates → get_elem? states k ≡ get_elem? r.states k)
      → ((k : ℕ) → i < k → get_elem? states k ≡ get_elem? r.states k)
      → Progress (suc i) (record {
        new_id = set r.new_id i (u32 r.nstates);
        states = states;
        nstates = suc r.nstates;
      })
  moved-Progress i r states old_id p lt room e stays size within here before behind =
      let same = u32_small r.nstates (omega (arith, p.few)) in
      let sized = p.sized in
      let at : (k : ℕ)
          → get_elem? (set r.new_id i (u32 r.nstates)) k
            ≡ (if i == k then some r.nstates else get_elem? r.new_id k) =
        λ k.
          ground (arith, get_elem?-set r.new_id i k (u32 r.nstates) (omega (arith, sized)), same) in
      record {
        sized = length-set r.new_id i (u32 r.nstates) ∙ p.sized;
        kept = size;
        few = omega (arith, p.few);
        within = within;
        gone = λ k. elim (Bool-cases (i == k)) [
          | inl q ↦
              let j : i ≡ k = ground arith in
              (
                λ h. absurd (ground (arith, at k, h, p.few, lt, room, q)),
                λ h. absurd (stays (ground (arith, e, (p.gone k).1 h, ap (get_elem? r.new_id) j))),
              )
          | inr q ↦
              (λ h. (p.gone k).0 (ground (arith, at k)), λ h. ground (arith, at k, (p.gone k).1 h))
        ];
        numbered = λ k id lt_k h real. elim (Bool-cases (i == k)) [
          | inl q ↦
              let j : i ≡ k = ground arith in
              let is : r.nstates ≡ id = ground (arith, at k) in
              (omega (arith, is), ap (get_elem? states) (sym is) ∙ here ∙ ap (get_elem? old) j)
          | inr q ↦
              let (below, stood) = p.numbered k id (ground arith) (ground (arith, at k)) real in
              (omega (arith, below), before id below ∙ stood)
        ];
        hit = λ x lt_x. elim (dec_lt x r.nstates) [
          | yes earlier ↦
              let (k, lt_k, h, real) = p.hit x earlier in
              (k, omega (arith, lt_k), ground (arith, at k, h, lt_k), real)
          | no last ↦
              let is : r.nstates ≡ x = omega arith in
              (i, omega arith, ground (arith, at i, is), λ q. omega (arith, q, p.few, lt, room, is))
        ];
        ordered = λ k l x y lt_l lt_i h real_x h' real_y.
            let old_k : get_elem? r.new_id k ≡ some x = ground (arith, at k) in
            elim (Bool-cases (i == l)) [
              | inl q ↦
                  let is : r.nstates ≡ y = ground (arith, at l) in
                  omega (arith, (p.numbered k x (ground arith) old_k real_x).0, is)
              | inr q ↦
                  p.ordered k l x y lt_l (ground arith) old_k real_x (ground (arith, at l)) real_y
            ];
        waits = λ k le. behind k (omega arith) ∙ p.waits k (omega arith);
      }

  renumber-Progress :
      (i : ℕ) (r : Numbering W)
      → Progress i r
      → i < length old
      → length old ≤ deleted
      → Progress (suc i) (renumber r i)
  renumber-Progress i r p lt room =
      let (id, e) = get_elem?-some r.new_id i (omega (arith, p.sized)) in
      elim (Bool-cases (id == deleted)) [
        | inl gone ↦
            let same : renumber r i ≡ r = ground (arith, e, gone) in
            subst (Progress (suc i)) (sym same) (record {
              sized = p.sized;
              kept = p.kept;
              few = omega (arith, p.few);
              within = p.within;
              gone = p.gone;
              numbered = λ k x lt_k h real. elim (dec_lt k i) [
                | yes before ↦ p.numbered k x before h real
                | no last ↦
                    let at : i ≡ k = omega arith in
                    let h' : get_elem? r.new_id i ≡ some x = ap (get_elem? r.new_id) at ∙ h in
                    absurd (real (ground (arith, e, gone, h')))
              ];
              hit = λ x lt_x.
                  let (k, lt_k, h, real) = p.hit x lt_x in (k, omega (arith, lt_k), h, real);
              ordered = λ k l x y lt_l lt_i h real_x h' real_y. elim (dec_lt l i) [
                | yes before ↦ p.ordered k l x y lt_l before h real_x h' real_y
                | no last ↦
                    let at : i ≡ l = omega arith in
                    let h'' : get_elem? r.new_id i ≡ some y = ap (get_elem? r.new_id) at ∙ h' in
                    absurd (real_y (ground (arith, e, gone, h'')))
              ];
              waits = λ k le. p.waits k (omega arith);
            })
        | inr stays ↦
            let real : id ≢ deleted = λ q. ground arith in
            elim (Bool-cases (i == r.nstates)) [
              | inl still ↦
                  let q : i ≡ r.nstates = ground arith in
                  subst (Progress (suc i)) (sym (ground (arith, e, stays, still))) (
                    moved-Progress i r r.states id p lt room e real p.kept p.within
                      (ap (get_elem? r.states) (sym q) ∙ p.waits i (omega arith)) (λ k _. refl)
                      (λ k _. refl))
              | inr apart ↦
                  let (a, ea) = get_elem?-some r.states r.nstates (omega (arith, p.few, p.kept)) in
                  let (b, eb) = get_elem?-some r.states i (omega (arith, p.kept)) in
                  let swapped = swap r.states r.nstates i in
                  let at : (k : ℕ)
                      → get_elem? swapped k ≡ (
                          if i == k
                          then some a
                          else if r.nstates == k
                          then some b
                          else get_elem? r.states k) =
                    λ k. get_elem?-swap r.states r.nstates i k a b ea eb in
                  subst (Progress (suc i)) (sym (ground (arith, e, stays, apart))) (
                    moved-Progress i r swapped id p lt room e real
                      (length-swap r.states r.nstates i ∙ p.kept)
                      (λ k a h.
                        let (j, h') = swap-Within r.states r.nstates i k a h in p.within j a h')
                      (ground (arith, at r.nstates, eb, p.waits i, apart))
                      (λ k lt_k. ground (arith, at k, p.few))
                      (λ k lt_k. ground (arith, at k, p.few)))
            ]
      ]

  pub numbering-Progress :
      (n i : ℕ) (r : Numbering W)
      → Progress i r
      → i + n ≡ length old
      → length old ≤ deleted
      → Progress (length old) (for_range renumber i n r)
  unfolding for_range
  numbering-Progress zero i r p all room = subst (λ m. Progress m r) (ground arith) p
  numbering-Progress (suc n) i r p all room =
      numbering-Progress n (suc i) (renumber r i) (renumber-Progress i r p (omega arith) room)
        (omega arith) room
