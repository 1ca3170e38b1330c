-- ===== src/Lazy/LazyFst/Cached.antt =====
-- A machine with a cache against the operation without one.
use rustfst.Base.{
  ℕ, ◌≡◌, ◌==◌, ◌⊎◌, inl, inr, refl, sym, ap, ◌∙◌, List, Option, Result, ok, err, panic,
  Result-cases, Bool-cases, arith,
}
use rustfst.Tr.{Tr}
use rustfst.Lazy.Cache.{CacheStatus, not_computed, computed, FstCache, IsFstCache}
use rustfst.Lazy.LazyFst.{FstOp, LazyFst, start, final_weight, get_trs}

pub CacheStatus-cases :
    {T : Type 0} (status : CacheStatus T)
    → (status ≡ not_computed) ⊎ ((x : T) × (status ≡ computed x))
CacheStatus-cases not_computed = inl refl
CacheStatus-cases (computed x) = inr (x, refl)

module _ {W : Type 0} (o : FstOp W) where
  -- A later state of the operation: any of its calls leads to one.
  pub data Later : o.State → o.State → Type 0 where
    same : {s : o.State} → Later s s
    by_start :
        {s t u : o.State} (x : Option ℕ) → o.compute_start s ≡ ok (x, t) → Later t u → Later s u
    by_trs :
        {s t u : o.State} (i : ℕ) (l : List (Tr W))
        → o.compute_trs s i ≡ ok (l, t)
        → Later t u
        → Later s u
    by_final :
        {s t u : o.State} (i : ℕ) (w : Option W)
        → o.compute_final_weight s i ≡ ok (w, t)
        → Later t u
        → Later s u

  -- An answer, once given, is given again by every later state, which it leaves as it is.
  pub record IsStable : Type 0 where
    pub start_stays :
        (s t u : o.State) (x : Option ℕ)
        → o.compute_start s ≡ ok (x, t)
        → Later t u
        → o.compute_start u ≡ ok (x, u)
    pub trs_stay :
        (s t u : o.State) (i : ℕ) (l : List (Tr W))
        → o.compute_trs s i ≡ ok (l, t)
        → Later t u
        → o.compute_trs u i ≡ ok (l, u)
    pub final_stays :
        (s t u : o.State) (i : ℕ) (w : Option W)
        → o.compute_final_weight s i ≡ ok (w, t)
        → Later t u
        → o.compute_final_weight u i ≡ ok (w, u)

  module _ (c : FstCache W) where
    -- What the cache holds is what the operation computes.
    pub record Agrees (fst : LazyFst o c) : Type 0 where
      pub starts :
          (x : Option ℕ)
          → c.get_start fst.cache ≡ computed x
          → o.compute_start fst.op ≡ ok (x, fst.op)
      pub trs :
          (i : ℕ) (l : List (Tr W))
          → c.get_trs fst.cache i ≡ computed l
          → o.compute_trs fst.op i ≡ ok (l, fst.op)
      pub finals :
          (i : ℕ) (w : Option W)
          → c.get_final_weight fst.cache i ≡ computed w
          → o.compute_final_weight fst.op i ≡ ok (w, fst.op)

    -- The call of the cached machine gives what the operation gives, leaves the operation's state as
    -- the operation does, and the cache in agreement with it.
    abbrev pub Refines : {A : Type 0} → Result (A × o.State) → Result (A × LazyFst o c) → Type 0
    Refines (err e) (err e') = Unit
    Refines (ok (a, s)) (ok (a', fst)) = (a ≡ a') × (s ≡ fst.op) × Agrees fst
    Refines _ _ = ⊥

    Refines-ok :
        {A : Type 0} (bare : Result (A × o.State)) (call : Result (A × LazyFst o c)) (a : A)
        (fst : LazyFst o c)
        → bare ≡ ok (a, fst.op)
        → call ≡ ok (a, fst)
        → Agrees fst
        → Refines bare call
    Refines-ok bare call a fst e e' v = rw (e, e') (refl, refl, v)

    Refines-err :
        {A : Type 0} (bare : Result (A × o.State)) (call : Result (A × LazyFst o c)) (x y : _)
        → bare ≡ err x
        → call ≡ err y
        → Refines bare call
    Refines-err bare call x y e e' = rw (e, e') tt

    computed-inj : {T : Type 0} {a b : T} → computed a ≡ computed b → a ≡ b
    computed-inj h = ground arith

    module _ (stable : IsStable) (laws : IsFstCache c) where
      trs-Agrees :
          (fst : LazyFst o c) (i : ℕ) (l : List (Tr W)) (op : o.State)
          → Agrees fst
          → o.compute_trs fst.op i ≡ ok (l, op)
          → Agrees (record { cache = c.insert_trs fst.cache i l; op = op })
      trs-Agrees fst i l op v e =
          let on : Later fst.op op = by_trs i l e same in
          record {
            starts = λ x h.
                stable.start_stays fst.op fst.op op x
                  (v.starts x (sym (laws.start-insert_trs fst.cache i l) ∙ h)) on;
            trs = λ j k h. elim (Bool-cases (i == j)) [
              | inl q ↦
                  let at : i ≡ j = ground arith in
                  let h' : c.get_trs (c.insert_trs fst.cache i l) i ≡ computed k =
                    ap (c.get_trs (c.insert_trs fst.cache i l)) at ∙ h in
                  let k_is : l ≡ k = computed-inj (sym (laws.trs-insert fst.cache i l) ∙ h') in
                  rw (sym k_is, sym at) (stable.trs_stay fst.op op op i l e same)
              | inr q ↦
                  stable.trs_stay fst.op fst.op op j k
                    (v.trs j k (sym (laws.trs-insert_ne fst.cache i j l (λ p. ground arith)) ∙ h))
                    on
            ];
            finals = λ j w h.
                stable.final_stays fst.op fst.op op j w
                  (v.finals j w (sym (laws.final-insert_trs fst.cache i j l) ∙ h)) on;
          }

      final-Agrees :
          (fst : LazyFst o c) (i : ℕ) (w : Option W) (op : o.State)
          → Agrees fst
          → o.compute_final_weight fst.op i ≡ ok (w, op)
          → Agrees (record { cache = c.insert_final_weight fst.cache i w; op = op })
      final-Agrees fst i w op v e =
          let on : Later fst.op op = by_final i w e same in
          record {
            starts = λ x h.
                stable.start_stays fst.op fst.op op x
                  (v.starts x (sym (laws.start-insert_final fst.cache i w) ∙ h)) on;
            trs = λ j k h.
                stable.trs_stay fst.op fst.op op j k
                  (v.trs j k (sym (laws.trs-insert_final fst.cache i j w) ∙ h)) on;
            finals = λ j k h. elim (Bool-cases (i == j)) [
              | inl q ↦
                  let at : i ≡ j = ground arith in
                  let h' : c.get_final_weight (c.insert_final_weight fst.cache i w) i ≡ computed k =
                    ap (c.get_final_weight (c.insert_final_weight fst.cache i w)) at ∙ h in
                  let k_is : w ≡ k = computed-inj (sym (laws.final-insert fst.cache i w) ∙ h') in
                  rw (sym k_is, sym at) (stable.final_stays fst.op op op i w e same)
              | inr q ↦
                  stable.final_stays fst.op fst.op op j k
                    (v.finals j k
                      (sym (laws.final-insert_ne fst.cache i j w (λ p. ground arith)) ∙ h))
                    on
            ];
          }

      start-Agrees :
          (fst : LazyFst o c) (s : Option ℕ) (op : o.State)
          → Agrees fst
          → o.compute_start fst.op ≡ ok (s, op)
          → Agrees (record { cache = c.insert_start fst.cache s; op = op })
      start-Agrees fst s op v e =
          let on : Later fst.op op = by_start s e same in
          record {
            starts = λ x h.
                let x_is : s ≡ x = computed-inj (sym (laws.start-insert fst.cache s) ∙ h) in
                rw (sym x_is) (stable.start_stays fst.op op op s e same);
            trs = λ j k h.
                stable.trs_stay fst.op fst.op op j k
                  (v.trs j k (sym (laws.trs-insert_start fst.cache s j) ∙ h)) on;
            finals = λ j k h.
                stable.final_stays fst.op fst.op op j k
                  (v.finals j k (sym (laws.final-insert_start fst.cache s j) ∙ h)) on;
          }

      trs-Refines :
          (fst : LazyFst o c) (i : ℕ)
          → Agrees fst
          → Refines (o.compute_trs fst.op i) (get_trs o c fst i)
      unfolding get_trs
      trs-Refines fst i v = elim (CacheStatus-cases (c.get_trs fst.cache i)) [
        | inr (l, hit) ↦ Refines-ok _ _ l fst (v.trs i l hit) (ground (arith, hit)) v
        | inl miss ↦ elim (Result-cases (o.compute_trs fst.op i)) [
          | inl (x, e) ↦ Refines-err _ _ x x e (ground (arith, miss, e))
          | inr ((l, op), e) ↦
              Refines-ok _ _ l (record { cache = c.insert_trs fst.cache i l; op = op }) e
                (ground (arith, miss, e)) (trs-Agrees fst i l op v e)
        ]
      ]

      final-Refines :
          (fst : LazyFst o c) (i : ℕ)
          → Agrees fst
          → Refines (o.compute_final_weight fst.op i) (final_weight o c fst i)
      unfolding final_weight
      final-Refines fst i v = elim (CacheStatus-cases (c.get_final_weight fst.cache i)) [
        | inr (w, hit) ↦ Refines-ok _ _ w fst (v.finals i w hit) (ground (arith, hit)) v
        | inl miss ↦ elim (Result-cases (o.compute_final_weight fst.op i)) [
          | inl (x, e) ↦ Refines-err _ _ x x e (ground (arith, miss, e))
          | inr ((w, op), e) ↦
              Refines-ok _ _ w (record { cache = c.insert_final_weight fst.cache i w; op = op }) e
                (ground (arith, miss, e)) (final-Agrees fst i w op v e)
        ]
      ]

      start-Refines :
          (fst : LazyFst o c) → Agrees fst → Refines (o.compute_start fst.op) (start o c fst)
      unfolding start
      start-Refines fst v = elim (CacheStatus-cases (c.get_start fst.cache)) [
        | inr (s, hit) ↦ Refines-ok _ _ s fst (v.starts s hit) (ground (arith, hit)) v
        | inl miss ↦ elim (Result-cases (o.compute_start fst.op)) [
          | inl (x, e) ↦ Refines-err _ _ x panic e (ground (arith, miss, e))
          | inr ((s, op), e) ↦
              Refines-ok _ _ s (record { cache = c.insert_start fst.cache s; op = op }) e
                (ground (arith, miss, e)) (start-Agrees fst s op v e)
        ]
      ]

      -- Let an operation give an answer again, unchanged, once it has given it, and a cache give back
      -- what was inserted. A machine whose cache agrees with its operation then refines the bare
      -- operation: `start`, `get_trs` and `final_weight` fail where the operation fails, give what it
      -- gives, leave its state as it would, and keep the cache in agreement.
      pub lazy_fst_lem :
          (fst : LazyFst o c)
          → Agrees fst
          → Refines (o.compute_start fst.op) (start o c fst)
            × ((i : ℕ) → Refines (o.compute_trs fst.op i) (get_trs o c fst i))
            × ((i : ℕ) → Refines (o.compute_final_weight fst.op i) (final_weight o c fst i))
      lazy_fst_lem fst v =
          (start-Refines fst v, λ i. trs-Refines fst i v, λ i. final-Refines fst i v)
