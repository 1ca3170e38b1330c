-- ===== src/Algorithms/Labels.antt =====
-- What a relabelling makes of statements about transitions.
use rustfst.Base.{ℕ, suc, ◌≡◌, sym, subst, ◌∙◌, ap, arith}
use rustfst.Tr.{Tr}
use rustfst.Fst.{VectorFst}
use rustfst.Fst.Meaning.{Every, Some, Unique, Repeated, Sorted, Unsorted}
use rustfst.Algorithms.Relabel.{Relabels, TrAt-relabelled, TrAt-original}

module _ {W : Type 0} {h : Tr W → Tr W} {f g : VectorFst W} (r : Relabels h f g) where
  module _ (P Q : ℕ → Tr W → Type 0) (carries : (x : ℕ) (a : Tr W) → P x a → Q x (h a)) where
    pub Every-relabelled : Every P f → Every Q g
    Every-relabelled all x i b e =
        let (a, at, q) = TrAt-original r x i b e in subst (Q x) q (carries x a (all x i a at))

    pub Some-relabelled : Some P f → Some Q g
    Some-relabelled (x, i, a, at, p) = (x, i, h a, TrAt-relabelled r x i a at, carries x a p)

  module _ (label label' : Tr W → ℕ) (same : (a : Tr W) → label' (h a) ≡ label a) where
    from_label : (a b : Tr W) → h a ≡ b → label a ≡ label' b
    from_label a b q = sym (same a) ∙ ap label' q

    pub Unique-relabelled : Unique label f → Unique label' g
    Unique-relabelled all x i j b c at_b at_c e =
        let (a, at, q) = TrAt-original r x i b at_b in
        let (a', at', q') = TrAt-original r x j c at_c in
        all x i j a a' at at' (from_label a b q ∙ e ∙ sym (from_label a' c q'))

    pub Repeated-relabelled : Repeated label f → Repeated label' g
    Repeated-relabelled (x, i, j, a, b, at, at', e, lt) = (
      x,
      i,
      j,
      h a,
      h b,
      TrAt-relabelled r x i a at,
      TrAt-relabelled r x j b at',
      same a ∙ e ∙ sym (same b),
      lt,
    )

    pub Sorted-relabelled : Sorted label f → Sorted label' g
    Sorted-relabelled all x i b c at_b at_c =
        let (a, at, q) = TrAt-original r x i b at_b in
        let (a', at', q') = TrAt-original r x (suc i) c at_c in
        omega (arith, from_label a b q, from_label a' c q', all x i a a' at at')

    pub Unsorted-relabelled : Unsorted label f → Unsorted label' g
    Unsorted-relabelled (x, i, a, b, at, at', lt) = (
      x,
      i,
      h a,
      h b,
      TrAt-relabelled r x i a at,
      TrAt-relabelled r x (suc i) b at',
      omega (arith, same a, same b),
    )
