-- ===== src/Compose/Op/Expands.antt =====
-- What a part of an expansion adds to the vector of transitions and to the table of states.
use mathlib.Core.List.{Memᴰ}
use mathlib.Core.List.Memᴰ.{head, append_left, append_right, append_cases, eq_of_singleton}
use rustfst.Base.{
  ℕ, ◌^◌, ◌≤◌, ◌<◌, ◌≡◌, ◌⊎◌, ◌↔◌, inl, inr, ⊎_elim, refl, sym, ap, ap₂, subst, ◌∙◌, true, false,
  [], ◌∷◌, ◌++◌, length, Bool-cases, ok, ◌>>=◌, >>=-eq-ok, arith, ok-inj,
}
use rustfst.Tr.{Tr}
use rustfst.Weights.{Semiring}
use rustfst.Lazy.StateTable.{Equality, get_id_or_insert, find_tuple}
use rustfst.Lazy.StateTable.Numbers.{IsTable, get_id_or_insert_lem, get_id_or_insert-grows}
use rustfst.Compose.{ComposeFilter}
use rustfst.Compose.Op.{ComposeStateTuple, Expansion, Table, add_tr, push_tr}

module _ {W : Type 0} ⦃sr : Semiring W⦄ (cf : ComposeFilter W)
    ⦃eq : Equality (ComposeStateTuple cf.Fs)⦄ (filter : cf.Filter) where
  -- The filter allows the pair, and the transition leads both on: to the state that the table has for
  -- the filter's answer and the targets of the pair.
  pub record Made (table : Table cf) (a b tr : Tr W) : Type 0 where
    pub allowed : cf.equals (cf.filter_tr filter a b) cf.no_state ≡ false
    pub reads : tr.ilabel ≡ a.ilabel
    pub writes : tr.olabel ≡ b.olabel
    pub weighs : sr.times a.weight b.weight ≡ ok tr.weight
    pub leads :
        find_tuple table tr.nextstate
        ≡ ok (record { fs = cf.filter_tr filter a b; s1 = a.nextstate; s2 = b.nextstate })

  -- The step from one expansion to a later one, by the pairs it is about.
  pub record Adds (Pair : Tr W → Tr W → Type 0) (x y : Expansion cf) : Type 0 where
    pub valid : IsTable y.1
    pub keeps :
        (id : ℕ) (t : ComposeStateTuple cf.Fs) → find_tuple x.1 id ≡ ok t → find_tuple y.1 id ≡ ok t
    pub old : (tr : Tr W) → Memᴰ tr x.0 → Memᴰ tr y.0
    pub from :
        (tr : Tr W)
        → Memᴰ tr y.0
        → Memᴰ tr x.0 ⊎ ((a : Tr W) × (b : Tr W) × Pair a b × Made y.1 a b tr)
    pub all :
        (a b : Tr W)
        → Pair a b
        → cf.equals (cf.filter_tr filter a b) cf.no_state ≡ false
        → (tr : Tr W) × Memᴰ tr y.0 × Made y.1 a b tr

  pub record Expands (Pair : Tr W → Tr W → Type 0) (x y : Expansion cf) : Type 0 where
    pub grows : length x.1.id_to_tuple ≤ length y.1.id_to_tuple
    pub adds : IsTable x.1 → length y.1.id_to_tuple < 2 ^ 32 → Adds Pair x y

  Made-keeps :
      (t t' : Table cf) (a b tr : Tr W)
      → ((id : ℕ) (u : ComposeStateTuple cf.Fs) → find_tuple t id ≡ ok u → find_tuple t' id ≡ ok u)
      → Made t a b tr
      → Made t' a b tr
  Made-keeps t t' a b tr k m = record {
    allowed = m.allowed;
    reads = m.reads;
    writes = m.writes;
    weighs = m.weighs;
    leads = k tr.nextstate _ m.leads;
  }

  pub Expands-iff :
      (P Q : Tr W → Tr W → Type 0) (x y : Expansion cf)
      → ((a b : Tr W) → P a b ↔ Q a b)
      → Expands P x y
      → Expands Q x y
  Expands-iff P Q x y iff e = record {
    grows = e.grows;
    adds = λ v small.
        let r = e.adds v small in
        record {
          valid = r.valid;
          keeps = r.keeps;
          old = r.old;
          from =
              λ tr m. ⊎_elim inl (λ (a, b, p, made). inr (a, b, (iff a b).0 p, made)) (r.from tr m);
          all = λ a b q. r.all a b ((iff a b).1 q);
        };
  }

  pub Expands-none : (x : Expansion cf) → Expands (λ a b. ⊥) x x
  Expands-none x = record {
    grows = omega arith;
    adds = λ v small. record {
      valid = v;
      keeps = λ id t h. h;
      old = λ tr m. m;
      from = λ tr m. inl m;
      all = λ a b p. absurd p;
    };
  }

  -- One part after another.
  pub Expands-trans :
      (P Q : Tr W → Tr W → Type 0) (x y z : Expansion cf)
      → Expands P x y
      → Expands Q y z
      → Expands (λ a b. P a b ⊎ Q a b) x z
  Expands-trans P Q x y z e d = record {
    grows = omega (arith, e.grows, d.grows);
    adds = λ v small.
        let r = e.adds v (omega (arith, d.grows, small)) in
        let s = d.adds r.valid small in
        record {
          valid = s.valid;
          keeps = λ id t h. s.keeps id t (r.keeps id t h);
          old = λ tr m. s.old tr (r.old tr m);
          from = λ tr m.
              ⊎_elim
                (λ m'.
                  ⊎_elim inl
                    (λ (a, b, p, made). inr (a, b, inl p, Made-keeps y.1 z.1 a b tr s.keeps made))
                    (r.from tr m'))
                (λ (a, b, q, made). inr (a, b, inr q, made)) (s.from tr m);
          all = λ a b p free.
              ⊎_elim
                (λ p'.
                  let (tr, m, made) = r.all a b p' free in
                  (tr, s.old tr m, Made-keeps y.1 z.1 a b tr s.keeps made))
                (λ q. s.all a b q free) p;
        };
  }

  -- The tuple that `add_tr` numbers, and what it makes.
  unfoldable pub tuple_of : Tr W → Tr W → ComposeStateTuple cf.Fs
  tuple_of arc1 arc2 = record {
    fs = cf.filter_tr filter arc1 arc2;
    s1 = arc1.nextstate;
    s2 = arc2.nextstate;
  }

  unfoldable pub made_tr : Tr W → Tr W → W → Table cf → Tr W
  made_tr arc1 arc2 weight table = record {
    ilabel = arc1.ilabel;
    olabel = arc2.olabel;
    weight = weight;
    nextstate = (get_id_or_insert table (tuple_of arc1 arc2)).0;
  }

  unfoldable pub behind : Tr W → Tr W → W → Expansion cf → Expansion cf
  behind arc1 arc2 weight x =
      (x.0 ++ made_tr arc1 arc2 weight x.1 ∷ [], (get_id_or_insert x.1 (tuple_of arc1 arc2)).1)

  pub push_tr-cases :
      (arc1 arc2 : Tr W) (x y : Expansion cf)
      → push_tr cf filter arc1 arc2 x ≡ ok y
      → ((cf.equals (cf.filter_tr filter arc1 arc2) cf.no_state ≡ true) × (x ≡ y))
        ⊎ ((cf.equals (cf.filter_tr filter arc1 arc2) cf.no_state ≡ false)
            × (weight : W) × (sr.times arc1.weight arc2.weight ≡ ok weight)
            × (behind arc1 arc2 weight x ≡ y))
  unfolding push_tr add_tr behind made_tr tuple_of
  push_tr-cases arc1 arc2 x y h =
      elim (Bool-cases (cf.equals (cf.filter_tr filter arc1 arc2) cf.no_state)) [
        | inl e ↦
            let same : push_tr cf filter arc1 arc2 x ≡ ok x = ground (arith, e) in
            inl (e, ok-inj (sym same ∙ h))
        | inr e ↦
            let added = add_tr cf arc1 arc2 (cf.filter_tr filter arc1 arc2) x.1 in
            let asked : push_tr cf filter arc1 arc2 x
                ≡ added >>= λ (tr, table'). ok (x.0 ++ tr ∷ [], table') =
              ground (arith, e) in
            let (p, e1, e2) = >>=-eq-ok added _ (sym asked ∙ h) in
            let (w, e3, e4) = >>=-eq-ok (sr.times arc1.weight arc2.weight) _ e1 in
            inr (
              e,
              w,
              e3,
              ap (λ (q : Tr W × Table cf). (x.0 ++ q.0 ∷ [], q.1)) (ok-inj e4) ∙ ok-inj e2,
            )
      ]

  -- A pair that the filter blocks, and one that it allows.
  blocked-Expands :
      (arc1 arc2 : Tr W) (x : Expansion cf)
      → cf.equals (cf.filter_tr filter arc1 arc2) cf.no_state ≡ true
      → Expands (λ a b. (a ≡ arc1) × (b ≡ arc2)) x x
  blocked-Expands arc1 arc2 x e = record {
    grows = omega arith;
    adds = λ v small. record {
      valid = v;
      keeps = λ id t h. h;
      old = λ tr m. m;
      from = λ tr m. inl m;
      all = λ a b (p, q) free.
          let free' : cf.equals (cf.filter_tr filter arc1 arc2) cf.no_state ≡ false =
            ap₂ (λ t u. cf.equals (cf.filter_tr filter t u) cf.no_state) (sym p) (sym q) ∙ free in
          ground (arith, e, free');
    };
  }

  behind-Expands :
      (arc1 arc2 : Tr W) (weight : W) (x : Expansion cf)
      → cf.equals (cf.filter_tr filter arc1 arc2) cf.no_state ≡ false
      → sr.times arc1.weight arc2.weight ≡ ok weight
      → Expands (λ a b. (a ≡ arc1) × (b ≡ arc2)) x (behind arc1 arc2 weight x)
  unfolding behind made_tr tuple_of
  behind-Expands arc1 arc2 weight x free times = record {
    grows = get_id_or_insert-grows x.1 (tuple_of arc1 arc2);
    adds = λ v small.
        let more = get_id_or_insert-grows x.1 (tuple_of arc1 arc2) in
        let n = get_id_or_insert_lem x.1 (tuple_of arc1 arc2) v (omega (arith, more, small)) in
        let made : Made (behind arc1 arc2 weight x).1 arc1 arc2 (made_tr arc1 arc2 weight x.1) =
          record {
            allowed = free;
            reads = refl;
            writes = refl;
            weighs = times;
            leads = n.resolves;
          } in
        record {
          valid = n.valid;
          keeps = n.keeps;
          old = λ tr m. append_left (made_tr arc1 arc2 weight x.1 ∷ []) m;
          from = λ tr m.
              ⊎_elim inl
                (λ m'. inr (
                  arc1,
                  arc2,
                  (refl, refl),
                  subst (Made (behind arc1 arc2 weight x).1 arc1 arc2) (sym (eq_of_singleton m'))
                      made,
                ))
                (append_cases x.0 m);
          all = λ a b (p, q) ok_pair.
              (made_tr arc1 arc2 weight x.1, append_right x.0 (head refl), rw (p, q) made);
        };
  }

  pub Expands-push :
      (arc1 arc2 : Tr W) (x y : Expansion cf)
      → push_tr cf filter arc1 arc2 x ≡ ok y
      → Expands (λ a b. (a ≡ arc1) × (b ≡ arc2)) x y
  Expands-push arc1 arc2 x y h =
      ⊎_elim
        (λ (e, same).
          subst (Expands (λ a b. (a ≡ arc1) × (b ≡ arc2)) x) same (blocked-Expands arc1 arc2 x e))
        (λ (e, w, times, same).
          subst (Expands (λ a b. (a ≡ arc1) × (b ≡ arc2)) x) same
            (behind-Expands arc1 arc2 w x e times))
        (push_tr-cases arc1 arc2 x y h)
