-- ===== src/Float/Order.antt =====
-- Consequences of the laws of `float`: orders between numbers, `min`, `max` and literals.
use suky_tradin_bot.Base.{◌≡◌, true, false, ◌⊎◌, arith}
use suky_tradin_bot.Float.Defs.{Float, IsFloat, ◌≼◌, IsUnit, in_unit, zero_f, one_f, min_f, max_f}

module _ {F : Type 0} ⦃fl : Float F⦄ (laws : IsFloat F) where
  open fl use {le, lt, eq, decimal}
  open laws use {
    le_trans, le_total, le_numbers, lt_lem, eq_lem, decimal_mono, one_not_le_zero, one_not_le_half,
    mul_share, literal_finite,
  }

  pub lt→le : (x y : F) → lt x y ≡ true → x ≼ y
  lt→le x y h = ground (arith, lt_lem x y)

  pub lt→not-le : (x y : F) → lt x y ≡ true → le y x ≡ false
  lt→not-le x y h = ground (arith, lt_lem x y)

  pub le→not-lt : (x y : F) → x ≼ y → lt y x ≡ false
  le→not-lt x y h = ground (arith, lt_lem y x)

  pub lt_irrefl : (x : F) → lt x x ≡ false
  lt_irrefl x = ground (arith, lt_lem x x)

  -- Between numbers, what is not smaller is at least as large.
  pub not-lt→le : (x y : F) → x ≼ x → y ≼ y → lt x y ≡ false → y ≼ x
  not-lt→le x y p q h = ground (arith, lt_lem x y, le_total x y p q)

  pub lt_of_lt_le : (x y z : F) → lt x y ≡ true → y ≼ z → lt x z ≡ true
  lt_of_lt_le x y z h k = ground (arith, lt_lem x y, lt_lem x z, le_trans x y z, le_trans y z x, k)

  pub lt_of_le_lt : (x y z : F) → x ≼ y → lt y z ≡ true → lt x z ≡ true
  lt_of_le_lt x y z h k = ground (arith, lt_lem y z, lt_lem x z, le_trans x y z, le_trans z x y, h)

  pub eq_self : (x : F) → x ≼ x → eq x x ≡ true
  eq_self x h = ground (arith, eq_lem x x)

  pub eq→le : (x y : F) → eq x y ≡ true → (x ≼ y) × (y ≼ x)
  eq→le x y h = ground (arith, eq_lem x y)

  -- Two numbers in order that are not equal are strictly in order.
  pub le-not-eq→lt : (x y : F) → x ≼ y → eq x y ≡ false → lt x y ≡ true
  le-not-eq→lt x y h k = ground (arith, eq_lem x y, lt_lem x y)

  pub min_f-le_left : (x y : F) → x ≼ x → min_f x y ≼ x
  min_f-le_left x y h = ground (arith, lt_lem y x)

  pub min_f-le_right : (x y : F) → x ≼ x → y ≼ y → min_f x y ≼ y
  min_f-le_right x y h k = ground (arith, lt_lem y x, le_total x y h k)

  -- The smaller of the two is a lower bound's upper neighbour, NaN apart.
  pub le-min_f : (z x y : F) → z ≼ x → (z ≼ y) ⊎ (le y y ≡ false) → z ≼ min_f x y
  le-min_f z x y h k = ground (arith, lt_lem y x, le_numbers y x)

  pub le-max_f : (x y : F) → x ≼ x → x ≼ max_f x y
  le-max_f x y h = ground (arith, lt_lem x y)

  pub zero_self : le zero_f zero_f ≡ true
  zero_self = decimal_mono 0 0 0 0 (omega arith)

  pub zero-le-one : le zero_f one_f ≡ true
  zero-le-one = decimal_mono 0 0 1 0 (omega arith)

  pub zero-IsUnit : IsUnit {F = F} zero_f
  zero-IsUnit = (zero_self, zero-le-one)

  pub one-IsUnit : IsUnit {F = F} one_f
  one-IsUnit = (zero-le-one, decimal_mono 1 0 1 0 (omega arith))

  pub zero-lt-one : lt zero_f one_f ≡ true
  zero-lt-one = ground (arith, lt_lem zero_f one_f, zero-le-one, one_not_le_zero)

  pub IsUnit-self : (x : F) → IsUnit x → x ≼ x
  IsUnit-self x h = (le_numbers x one_f h.1).0

  pub IsUnit-of_le : (x y : F) → zero_f ≼ x → x ≼ y → IsUnit y → IsUnit x
  IsUnit-of_le x y p q h = (p, le_trans x y one_f q h.1)

  pub in_unit→IsUnit : (x : F) → in_unit x ≡ true → IsUnit x
  in_unit→IsUnit x h = ground arith

  pub IsUnit→in_unit : (x : F) → IsUnit x → in_unit x ≡ true
  IsUnit→in_unit x h = ground arith

  pub half-IsUnit : IsUnit {F = F} (decimal 50 2)
  half-IsUnit = (decimal_mono 0 0 50 2 (omega arith), decimal_mono 50 2 1 0 (omega arith))

  pub half-lt-one : lt (decimal 50 2) one_f ≡ true
  half-lt-one = ground (arith, lt_lem (decimal 50 2) one_f, half-IsUnit.1, one_not_le_half)

  pub one-lt-infinity : lt one_f fl.infinity ≡ true
  one-lt-infinity = literal_finite 1 (omega arith)

  pub mul_unit : (x y : F) → IsUnit x → IsUnit y → (zero_f ≼ fl.mul x y) × (fl.mul x y ≼ x)
  mul_unit x y u v = mul_share x y u.0 (lt_of_le_lt x one_f fl.infinity u.1 one-lt-infinity) v

  pub not-le→lt : (x y : F) → x ≼ x → y ≼ y → le x y ≡ false → lt y x ≡ true
  not-le→lt x y p q h = ground (arith, lt_lem y x, le_total x y p q)

  pub lt→numbers : (x y : F) → lt x y ≡ true → (x ≼ x) × (y ≼ y)
  lt→numbers x y h = le_numbers x y (lt→le x y h)
