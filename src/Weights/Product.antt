-- ===== src/Weights/Product.antt =====
-- product_weight.rs: `ProductWeight<W1, W2>`.
use rustfst.Base.{◌≡◌, true, false, ◌&&◌, Result, ok, err, ◌>>=◌, arith}
use rustfst.Weights.{
  Semiring, SemiringFlag, SemiringProperties, DivideType, left_semiring, right_semiring,
  commutative, idempotent, path,
}
use rustfst.Weights.Laws.{IsNearSemiring, IsSemiring, FlagLaw, IsAsDeclared}

-- An operation of both components, the first component's failure first.
abbrev pub pairwise : {A B : Type 0} → Result A → Result B → Result (A × B)
pairwise m n = m >>= λ a. n >>= λ b. ok (a, b)

-- The flags that a product can have: all but `PATH`.
abbrev pub product_flags : SemiringProperties
product_flags path = false
product_flags _ = true

abbrev pub product_weight : {A B : Type 0} → Semiring A → Semiring B → Semiring (A × B)
product_weight s t = record {
  zero = (s.zero, t.zero);
  one = (s.one, t.one);
  plus = λ x y. pairwise (s.plus x.0 y.0) (t.plus x.1 y.1);
  times = λ x y. pairwise (s.times x.0 y.0) (t.times x.1 y.1);
  equals = λ x y. s.equals x.0 y.0 && t.equals x.1 y.1;
  properties = λ f. s.properties f && t.properties f && product_flags f;
}

unfoldable pub product_divide :
    {A B : Type 0} (f : A → A → DivideType → Result A) (g : B → B → DivideType → Result B)
    → A × B
    → A × B
    → DivideType
    → Result (A × B)
product_divide f g x y t = pairwise (f x.0 y.0 t) (g x.1 y.1 t)

pairwise-eq-ok :
    {A B : Type 0} (m : Result A) (n : Result B) (x : A × B)
    → pairwise m n ≡ ok x
    → (m ≡ ok x.0) × (n ≡ ok x.1)
pairwise-eq-ok (ok a) (ok b) x h = ground arith
pairwise-eq-ok (ok a) (err e) x h = cc
pairwise-eq-ok (err e) n x h = cc

pairwise_congr :
    {A B : Type 0} {m m' : Result A} {n n' : Result B}
    → m ≡ m'
    → n ≡ n'
    → pairwise m n ≡ pairwise m' n'
pairwise_congr p q = λ i. pairwise (p i) (q i)

module _ {A B : Type 0} (s : Semiring A) (t : Semiring B) where
  product-IsNearSemiring : IsNearSemiring s → IsNearSemiring t → IsNearSemiring (product_weight s t)
  product-IsNearSemiring l r = record {
    plus_comm = λ a b. pairwise_congr (l.plus_comm a.0 b.0) (r.plus_comm a.1 b.1);
    plus_assoc = λ a b c ab bc p q.
        let (p0, p1) = pairwise-eq-ok (s.plus a.0 b.0) (t.plus a.1 b.1) ab p in
        let (q0, q1) = pairwise-eq-ok (s.plus b.0 c.0) (t.plus b.1 c.1) bc q in
        pairwise_congr (l.plus_assoc a.0 b.0 c.0 ab.0 bc.0 p0 q0)
          (r.plus_assoc a.1 b.1 c.1 ab.1 bc.1 p1 q1);
    zero-plus = λ a. pairwise_congr (l.zero-plus a.0) (r.zero-plus a.1);
    times_assoc = λ a b c ab bc p q.
        let (p0, p1) = pairwise-eq-ok (s.times a.0 b.0) (t.times a.1 b.1) ab p in
        let (q0, q1) = pairwise-eq-ok (s.times b.0 c.0) (t.times b.1 c.1) bc q in
        pairwise_congr (l.times_assoc a.0 b.0 c.0 ab.0 bc.0 p0 q0)
          (r.times_assoc a.1 b.1 c.1 ab.1 bc.1 p1 q1);
    one-times = λ a. pairwise_congr (l.one-times a.0) (r.one-times a.1);
    times-one = λ a. pairwise_congr (l.times-one a.0) (r.times-one a.1);
    zero-times = λ a. pairwise_congr (l.zero-times a.0) (r.zero-times a.1);
    times-zero = λ a. pairwise_congr (l.times-zero a.0) (r.times-zero a.1);
  }

  both_declared :
      (f : SemiringFlag)
      → (product_weight s t).properties f ≡ true
      → (s.properties f ≡ true) × (t.properties f ≡ true)
  both_declared f h = ground arith

  product-left :
      FlagLaw s left_semiring → FlagLaw t left_semiring → FlagLaw (product_weight s t) left_semiring
  product-left l r a b c ab ca cb p q u =
      let (p0, p1) = pairwise-eq-ok (s.plus a.0 b.0) (t.plus a.1 b.1) ab p in
      let (q0, q1) = pairwise-eq-ok (s.times c.0 a.0) (t.times c.1 a.1) ca q in
      let (u0, u1) = pairwise-eq-ok (s.times c.0 b.0) (t.times c.1 b.1) cb u in
      pairwise_congr (l a.0 b.0 c.0 ab.0 ca.0 cb.0 p0 q0 u0) (r a.1 b.1 c.1 ab.1 ca.1 cb.1 p1 q1 u1)

  product-right :
      FlagLaw s right_semiring
      → FlagLaw t right_semiring
      → FlagLaw (product_weight s t) right_semiring
  product-right l r a b c ab ac bc p q u =
      let (p0, p1) = pairwise-eq-ok (s.plus a.0 b.0) (t.plus a.1 b.1) ab p in
      let (q0, q1) = pairwise-eq-ok (s.times a.0 c.0) (t.times a.1 c.1) ac q in
      let (u0, u1) = pairwise-eq-ok (s.times b.0 c.0) (t.times b.1 c.1) bc u in
      pairwise_congr (l a.0 b.0 c.0 ab.0 ac.0 bc.0 p0 q0 u0) (r a.1 b.1 c.1 ab.1 ac.1 bc.1 p1 q1 u1)

  -- The product of two semirings is a semiring, as the trait's comment defines one: commutative sum,
  -- product, annihilating zero, and distributivity on both sides.
  pub product-IsSemiring : IsSemiring s → IsSemiring t → IsSemiring (product_weight s t)
  product-IsSemiring l r = record {
    near = product-IsNearSemiring l.near r.near;
    left = product-left l.left r.left;
    right = product-right l.right r.right;
  }

  -- The flags that a product declares, those that both components declare and that are not `PATH`,
  -- hold of the product if the components' flags hold of them.
  pub product-IsAsDeclared : IsAsDeclared s → IsAsDeclared t → IsAsDeclared (product_weight s t)
  product-IsAsDeclared l r left_semiring h =
      let (hs, ht) = both_declared left_semiring h in
      product-left (l left_semiring hs) (r left_semiring ht)
  product-IsAsDeclared l r right_semiring h =
      let (hs, ht) = both_declared right_semiring h in
      product-right (l right_semiring hs) (r right_semiring ht)
  product-IsAsDeclared l r commutative h = λ a b.
      let (hs, ht) = both_declared commutative h in
      pairwise_congr (l commutative hs a.0 b.0) (r commutative ht a.1 b.1)
  product-IsAsDeclared l r idempotent h = λ a.
      let (hs, ht) = both_declared idempotent h in
      pairwise_congr (l idempotent hs a.0) (r idempotent ht a.1)
  product-IsAsDeclared l r path h = absurd (ground arith)
