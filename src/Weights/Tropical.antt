-- ===== src/Weights/Tropical.antt =====
-- tropical_weight.rs over the `f32` values other than NaN.
use rustfst.Base.{
  ◌≡◌, refl, ap, ◌↔◌, ◌⊎◌, inl, inr, ⊎_elim, Bool, true, false, not, ◌&&◌, if◌then◌else◌, ok, arith,
}
use rustfst.Weights.{
  Semiring, left_semiring, right_semiring, commutative, idempotent, path, is_zero,
}
use rustfst.Weights.Laws.{IsAsDeclared}

-- The machine's `f32` without NaN, two values being one if `==` holds of them (so 0.0 and -0.0 are
-- one value): a total order whose greatest value is infinity, and a rounded sum that is commutative,
-- exact at zero and monotone, below infinity. It is not associative.
pub record Float : Type 1 where
  pub F : Type 0
  pub lt : F → F → Bool
  pub is_inf : F → Bool
  pub inf : F
  pub zero : F
  pub kdelta : F
  pub add : F → F → F
  pub is_inf_iff : (a : F) → (is_inf a ≡ true) ↔ (a ≡ inf)
  pub lt_inf : (a : F) → lt inf a ≡ false
  pub lt_asymm : (a b : F) → lt a b ≡ true → lt b a ≡ false
  pub lt_total : (a b : F) → lt a b ≡ false → lt b a ≡ false → a ≡ b
  pub lt_trans : (a b c : F) → lt a b ≡ true → lt b c ≡ true → lt a c ≡ true
  pub zero-add : (a : F) → add zero a ≡ a
  pub add_comm : (a b : F) → is_inf a ≡ false → is_inf b ≡ false → add a b ≡ add b a
  pub add_mono :
      (a b c : F)
      → is_inf b ≡ false
      → is_inf c ≡ false
      → lt a b ≡ true
      → lt (add c b) (add c a) ≡ false
  pub zero_finite : is_inf zero ≡ false
  -- The comparison's tolerance neither leaves nor reaches infinity.
  pub kdelta_inf : (a : F) → is_inf (add a kdelta) ≡ is_inf a

module _ (fl : Float) where
  open fl use {F, lt, is_inf, inf, add}

  -- `if rhs.value < self.value { self.value = rhs.value }`
  unfoldable pub tropical_plus : F → F → F
  tropical_plus a b = if lt b a then b else a

  unfoldable pub tropical_times : F → F → F
  tropical_times a b = if is_inf a then a else if is_inf b then b else add a b

  -- `w1 <= (w2 + KDELTA) && w2 <= (w1 + KDELTA)`
  unfoldable pub tropical_equals : F → F → Bool
  tropical_equals a b = not (lt (add b fl.kdelta) a) && not (lt (add a fl.kdelta) b)

  abbrev pub tropical_weight : Semiring F
  tropical_weight = record {
    zero = inf;
    one = fl.zero;
    plus = λ a b. ok (tropical_plus a b);
    times = λ a b. ok (tropical_times a b);
    equals = tropical_equals;
    properties = λ _. true;
  }

  lt_irrefl : (a : F) → lt a a ≡ false
  lt_irrefl a = ground (arith, fl.lt_asymm a a)

  plus_comm : (a b : F) → tropical_plus a b ≡ tropical_plus b a
  unfolding tropical_plus
  plus_comm a b = ground (arith, fl.lt_asymm a b, fl.lt_total a b)

  plus_assoc :
      (a b c : F) → tropical_plus (tropical_plus a b) c ≡ tropical_plus a (tropical_plus b c)
  unfolding tropical_plus
  plus_assoc a b c = ground (
    arith,
    fl.lt_trans c b a,
    fl.lt_trans c a b,
    fl.lt_trans b c a,
    fl.lt_trans b a c,
    fl.lt_trans a b c,
    fl.lt_trans a c b,
    fl.lt_total a b,
    fl.lt_total b c,
    fl.lt_total a c,
    fl.lt_asymm a b,
    fl.lt_asymm b c,
    fl.lt_asymm a c,
  )

  times_comm : (a b : F) → tropical_times a b ≡ tropical_times b a
  unfolding tropical_times
  times_comm a b = ground (arith, fl.add_comm a b, fl.is_inf_iff a, fl.is_inf_iff b)

  zero-times : (a : F) → tropical_times inf a ≡ inf
  unfolding tropical_times
  zero-times a = rw ((fl.is_inf_iff inf).1 refl)

  one-times : (a : F) → tropical_times fl.zero a ≡ a
  unfolding tropical_times
  one-times a = ground (arith, fl.zero_finite, fl.zero-add a)

  times-plus :
      (a b c : F)
      → tropical_times c (tropical_plus a b)
        ≡ tropical_plus (tropical_times c a) (tropical_times c b)
  unfolding tropical_times tropical_plus
  times-plus a b c = ground (
    arith,
    fl.is_inf_iff a,
    fl.is_inf_iff b,
    fl.is_inf_iff c,
    fl.lt_inf a,
    fl.lt_inf b,
    fl.lt_inf (add c b),
    fl.lt_inf (add c a),
    fl.lt_inf inf,
    fl.lt_total a b,
    fl.lt_asymm a b,
    fl.add_mono a b c,
    fl.add_mono b a c,
    fl.lt_total (add c a) (add c b),
    fl.lt_total (add c a) inf,
    fl.lt_total (add c b) inf,
    lt_irrefl a,
    lt_irrefl c,
  )

  inf-plus : (a : F) → tropical_plus inf a ≡ a
  unfolding tropical_plus
  inf-plus a = ground (arith, fl.lt_inf a, fl.lt_total a inf)

  plus_self : (a : F) → tropical_plus a a ≡ a
  unfolding tropical_plus
  plus_self a = ground arith

  either : (a b : F) → (tropical_plus a b ≡ a) ⊎ (tropical_plus a b ≡ b)
  unfolding tropical_plus
  either a b = ground arith

  declared : IsAsDeclared tropical_weight
  declared left_semiring h = λ a b c ab ca cb p q r. ground (arith, times-plus a b c)
  declared right_semiring h = λ a b c ab ac bc p q r.
      ground (arith, times-plus a b c, times_comm a c, times_comm b c, times_comm ab c)
  declared commutative h = λ a b. ap ok (times_comm a b)
  declared idempotent h = λ a. ap ok (plus_self a)
  declared path h = λ a b. ⊎_elim (λ e. inl (ap ok e)) (λ e. inr (ap ok e)) (either a b)

  zero_iff : (a : F) → (is_zero ⦃s = tropical_weight⦄ a ≡ true) ↔ (a ≡ inf)
  unfolding is_zero tropical_equals
  zero_iff a = ground (
    arith,
    fl.is_inf_iff a,
    fl.is_inf_iff inf,
    fl.is_inf_iff (add a fl.kdelta),
    fl.is_inf_iff (add inf fl.kdelta),
    fl.kdelta_inf a,
    fl.kdelta_inf inf,
    fl.lt_inf inf,
    fl.lt_inf (add a fl.kdelta),
    fl.lt_total (add a fl.kdelta) inf,
  )

  -- The tropical operations form a semiring but for the associativity of the product, which rounding
  -- breaks: `plus` is a commutative monoid with infinity, `times` is commutative with the unit 0 and
  -- the annihilator infinity, and every flag that the weight declares holds, the distributive laws
  -- among them. Only infinity counts as zero, although equality has a tolerance.
  pub tropical_laws :
      ((a b : F) → tropical_plus a b ≡ tropical_plus b a)
      × ((a b c : F) → tropical_plus (tropical_plus a b) c ≡ tropical_plus a (tropical_plus b c))
      × ((a : F) → tropical_plus inf a ≡ a)
      × ((a : F) → tropical_times fl.zero a ≡ a)
      × ((a : F) → tropical_times inf a ≡ inf)
      × IsAsDeclared tropical_weight
      × ((a : F) → (is_zero ⦃s = tropical_weight⦄ a ≡ true) ↔ (a ≡ inf))
  tropical_laws = (plus_comm, plus_assoc, inf-plus, one-times, zero-times, declared, zero_iff)
