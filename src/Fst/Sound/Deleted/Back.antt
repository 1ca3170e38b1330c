-- ===== src/Fst/Sound/Deleted/Back.antt =====
-- Where the transitions and walks of a machine stood before `del_states`.
use rustfst.Base.{
  ℕ, zero, suc, ◌<◌, ◌≤◌, ◌≡◌, ◌≢◌, ◌==◌, inl, inr, refl, sym, ap, subst, ◌∙◌, List, [], ◌∷◌,
  get_elem?, get_elem?-lt, get_elem?-some, Option, none, some, Option-cases, Bool-cases, arith,
}
use native.Mathlib.Decide.{dec_lt}
use rustfst.Tr.{Tr}
use rustfst.Fst.{VectorFst, num_states, trs_of, final_of, TrAt}
use rustfst.Fst.Access.{lt_of_TrAt}
use rustfst.Fst.Meaning.{Walk, here, step, IsOnCycle, Unique, Sorted}
use rustfst.Fst.DelStates.{deleted, new_start}
use rustfst.Fst.DelStates.Redirect.{staying}
use rustfst.Fst.DelStates.Whole.{Deletes}

-- State `s` stays, and its new number is `x`.
abbrev pub Renumbered : List ℕ → ℕ → ℕ → Type 0
Renumbered new_id s x = (get_elem? new_id s ≡ some x) × (x ≢ deleted)

-- The transition `b` is `a` with the new number of its target.
pub record Keeps {W : Type 0} (new_id : List ℕ) (a b : Tr W) : Type 0 where
  pub ilabel : b.ilabel ≡ a.ilabel
  pub olabel : b.olabel ≡ a.olabel
  pub weight : b.weight ≡ a.weight
  pub target : Renumbered new_id a.nextstate b.nextstate

module _ {W : Type 0} (new_id : List ℕ) where
  -- A transition behind the loop, and where it stood before.
  abbrev Stood : List (Tr W) → Tr W → Type 0
  Stood trs b = (j : ℕ) × (a : Tr W) × (get_elem? trs j ≡ some a) × Keeps new_id a b

  later : (x b : Tr W) (trs : List (Tr W)) → Stood trs b → Stood (x ∷ trs) b
  later x b trs (j, a, h, k) = (suc j, a, h, k)

  kept_tr :
      (a : Tr W) (t : ℕ)
      → Renumbered new_id a.nextstate t
      → Keeps new_id a (record a { nextstate = t })
  kept_tr a t r = record { ilabel = refl; olabel = refl; weight = refl; target = r }

  stood :
      (trs : List (Tr W)) (i : ℕ) (b : Tr W)
      → get_elem? (staying new_id trs) i ≡ some b
      → Stood trs b
  stood [] i b h = cc
  stood (x ∷ trs) i b h = elim (Option-cases (get_elem? new_id x.nextstate)) [
    | inl e ↦ later x b trs (stood trs i b (ground (arith, e)))
    | inr (t, e) ↦ elim (Bool-cases (t == deleted)) [
      | inl gone ↦ later x b trs (stood trs i b (ground (arith, e, gone)))
      | inr stays ↦
          let new : Tr W = record x { nextstate = t } in
          let k = kept_tr x t (e, λ q. ground arith) in
          first_or new k i (ground (arith, e, stays)) (λ m q. later x b trs (stood trs m b q))
    ]
  ]
    where
      first_or :
          (new : Tr W)
          → Keeps new_id x new
          → (i : ℕ) → get_elem? (new ∷ staying new_id trs) i ≡ some b
          → ((m : ℕ) → get_elem? (staying new_id trs) m ≡ some b → Stood (x ∷ trs) b)
          → Stood (x ∷ trs) b
      first_or new k zero h rest =
          let same : new ≡ b = ground arith in (0, x, refl, subst (Keeps new_id x) same k)
      first_or new k (suc m) h rest = rest m h

  -- Two transitions, which stood in the same order.
  abbrev Both : List (Tr W) → Tr W → Tr W → Type 0
  Both trs b d =
      (j : ℕ) × (l : ℕ) × (a : Tr W) × (c : Tr W) × (j < l)
      × (get_elem? trs j ≡ some a)
      × (get_elem? trs l ≡ some c)
      × Keeps new_id a b
      × Keeps new_id c d

  Both-later : (x b d : Tr W) (trs : List (Tr W)) → Both trs b d → Both (x ∷ trs) b d
  Both-later x b d trs (j, l, a, c, lt, ha, hc, ka, kc) =
      (suc j, suc l, a, c, omega (arith, lt), ha, hc, ka, kc)

  Both-stood :
      (trs : List (Tr W)) (i k : ℕ) (b d : Tr W)
      → i < k
      → get_elem? (staying new_id trs) i ≡ some b
      → get_elem? (staying new_id trs) k ≡ some d
      → Both trs b d
  Both-stood [] i k b d lt h h' = cc
  Both-stood (x ∷ trs) i k b d lt h h' = elim (Option-cases (get_elem? new_id x.nextstate)) [
    | inl e ↦
        Both-later x b d trs (Both-stood trs i k b d lt (ground (arith, e)) (ground (arith, e)))
    | inr (t, e) ↦ elim (Bool-cases (t == deleted)) [
      | inl gone ↦
          Both-later x b d trs
            (Both-stood trs i k b d lt (ground (arith, e, gone)) (ground (arith, e, gone)))
      | inr stays ↦
          let new : Tr W = record x { nextstate = t } in
          let kept = kept_tr x t (e, λ q. ground arith) in
          first_or new kept i k lt (ground (arith, e, stays)) (ground (arith, e, stays))
            (λ m n lt' q q'. Both-later x b d trs (Both-stood trs m n b d lt' q q'))
    ]
  ]
    where
      first_or :
          (new : Tr W)
          → Keeps new_id x new
          → (i k : ℕ) → i < k
          → get_elem? (new ∷ staying new_id trs) i ≡ some b
          → get_elem? (new ∷ staying new_id trs) k ≡ some d
          → ((m n : ℕ)
              → m < n
              → get_elem? (staying new_id trs) m ≡ some b
              → get_elem? (staying new_id trs) n ≡ some d
              → Both (x ∷ trs) b d)
          → Both (x ∷ trs) b d
      first_or new kept i zero lt h h' rest = absurd (omega arith)
      first_or new kept zero (suc n) lt h h' rest =
          let same : new ≡ b = ground arith in
          let (l, c, hc, kc) = stood trs n d h' in
          (0, suc l, x, c, omega arith, refl, hc, subst (Keeps new_id x) same kept, kc)
      first_or new kept (suc m) (suc n) lt h h' rest = rest m n (omega arith) h h'

module _ {W : Type 0} {f g : VectorFst W} {dstates : List ℕ} (d : Deletes f dstates g) where
  -- A state of the new machine, and the state that it was.
  abbrev pub Was : ℕ → ℕ → Type 0
  Was x s = Renumbered d.new_id s x

  pub Was-unique : (x s t : ℕ) → Was x s → Was x t → s ≡ t
  Was-unique x s t p q = elim (dec_lt s t) [
    | yes lt ↦ absurd (omega (arith, d.ordered s t x x lt p.0 p.1 q.0 q.1))
    | no ge ↦ elim (dec_lt t s) [
      | yes lt ↦ absurd (omega (arith, d.ordered t s x x lt q.0 q.1 p.0 p.1))
      | no le ↦ omega arith
    ]
  ]

  pub Was-lt : (x y s t : ℕ) → Was x s → Was y t → s < t → x < y
  Was-lt x y s t p q lt = d.ordered s t x y lt p.0 p.1 q.0 q.1

  pub state_back :
      (x : ℕ)
      → x < num_states g
      → (s : ℕ) × Was x s
        × (trs_of g x ≡ staying d.new_id (trs_of f s))
        × (final_of g x ≡ final_of f s)
  state_back x lt =
      let (s, e, real) = d.reached x lt in
      let (st, at) =
        get_elem?-some f.states s (omega (arith, get_elem?-lt d.new_id s e, d.sized)) in
      let (st', at', r) = d.stands s x st at e real in
      (s, (e, real), ground (arith, at, at', r.read), ground (arith, at, at', r.final_stays))

  pub tr_back :
      (x i : ℕ) (b : Tr W)
      → TrAt g x i b
      → (s : ℕ) × Was x s × (j : ℕ) × (a : Tr W) × TrAt f s j a × Keeps d.new_id a b
  tr_back x i b h =
      let (s, was, trs, _) = state_back x (lt_of_TrAt g x i b h) in
      let (j, a, at, k) = stood d.new_id (trs_of f s) i b (ap (λ l. get_elem? l i) (sym trs) ∙ h) in
      (s, was, j, a, at, k)

  pair_back :
      (x i k : ℕ) (b c : Tr W)
      → i < k
      → TrAt g x i b
      → TrAt g x k c
      → (s : ℕ) × Both d.new_id (trs_of f s) b c
  pair_back x i k b c lt h h' =
      let (s, was, trs, _) = state_back x (lt_of_TrAt g x i b h) in
      (
        s,
        Both-stood d.new_id (trs_of f s) i k b c lt (ap (λ l. get_elem? l i) (sym trs) ∙ h)
            (ap (λ l. get_elem? l k) (sym trs) ∙ h'),
      )

  pub Walk-back : {x y : ℕ} (s : ℕ) → Was x s → Walk g x y → (t : ℕ) × Was y t × Walk f s t
  Walk-back s was here = (s, was, here)
  Walk-back {x} {y} s was (step i b h w) =
      let (s', was', j, a, at, k) = tr_back x i b h in
      let same : s' ≡ s = Was-unique x s' s was' was in
      let (t, end, v) = Walk-back a.nextstate k.target w in
      (t, end, step j a (subst (λ u. TrAt f u j a) same at) v)

  pub cycle_back : (x s : ℕ) → Was x s → IsOnCycle g x → IsOnCycle f s
  cycle_back x s was (i, b, h, w) =
      let (s', was', j, a, at, k) = tr_back x i b h in
      let (t, end, v) = Walk-back a.nextstate k.target w in
      (
        j,
        a,
        subst (λ u. TrAt f u j a) (Was-unique x s' s was' was) at,
        subst (λ u. Walk f a.nextstate u) (Was-unique x t s end was) v,
      )

  pub Unique-back :
      (label : Tr W → ℕ)
      → ((a b : Tr W) → Keeps d.new_id a b → label b ≡ label a)
      → Unique label f
      → Unique label g
  Unique-back label kept once x i k b c h h' e = elim (dec_lt i k) [
    | yes lt ↦
        let (s, (j, l, a, a', lt', at, at', q, q')) = pair_back x i k b c lt h h' in
        absurd (omega (arith, lt', once s j l a a' at at' (sym (kept a b q) ∙ e ∙ kept a' c q')))
    | no ge ↦ elim (dec_lt k i) [
      | yes lt ↦
          let (s, (j, l, a, a', lt', at, at', q, q')) = pair_back x k i c b lt h' h in
          absurd
            (omega (arith, lt', once s j l a a' at at' (sym (kept a c q) ∙ sym e ∙ kept a' b q')))
      | no le ↦ omega arith
    ]
  ]

  -- The labels of a state in order, also of transitions that do not follow each other.
  Sorted-le :
      (label : Tr W → ℕ)
      → Sorted label f
      → (s j l : ℕ) (a c : Tr W) → j < l
      → TrAt f s j a
      → TrAt f s l c
      → label a ≤ label c
  Sorted-le label sorted s j zero a c lt h h' = absurd (omega arith)
  Sorted-le label sorted s j (suc l) a c lt h h' =
      let (m, at) =
        get_elem?-some (trs_of f s) l (omega (arith, get_elem?-lt (trs_of f s) (suc l) h')) in
      elim (dec_lt j l) [
        | yes more ↦ omega (arith, Sorted-le label sorted s j l a m more h at, sorted s l m c at h')
        | no last ↦
            let same : j ≡ l = omega arith in sorted s l a c (subst (λ n. TrAt f s n a) same h) h'
      ]

  pub Sorted-back :
      (label : Tr W → ℕ)
      → ((a b : Tr W) → Keeps d.new_id a b → label b ≡ label a)
      → Sorted label f
      → Sorted label g
  Sorted-back label kept sorted x i b c h h' =
      let (s, (j, l, a, a', lt, at, at', q, q')) = pair_back x i (suc i) b c (omega arith) h h' in
      omega (arith, Sorted-le label sorted s j l a a' lt at at', kept a b q, kept a' c q')

  pub start_back : (x : ℕ) → g.start_state ≡ some x → (s : ℕ) × Was x s × (f.start_state ≡ some s)
  unfolding new_start
  start_back x e = by_start f.start_state refl
    where
      by_start :
          (start : Option ℕ) → f.start_state ≡ start → (s : ℕ) × Was x s × (f.start_state ≡ some s)
      by_start none q = absurd (ground (arith, d.starts, q, e))
      by_start (some s) q = elim (Option-cases (get_elem? d.new_id s)) [
        | inl absent ↦ absurd (ground (arith, d.starts, q, absent))
        | inr (id, at) ↦ elim (Bool-cases (id == deleted)) [
          | inl gone ↦ absurd (ground (arith, d.starts, q, at, gone, e))
          | inr stays ↦
              let same : id ≡ x = ground (arith, d.starts, q, at, stays, e) in
              (s, (at ∙ ap some same, λ z. ground (arith, stays, same, z)), q)
        ]
      ]
