-- ===== src/Float/Fixed.antt =====
-- A value of the interface: signed fixed-point numbers with nine decimals. It shows that the laws
-- can be met, and the tests run on it.
use native.Mathlib.Nat.{
  mul-le-mul_left, mul-le-mul_right, le_of_mul-le-mul_right, div-le_of_le-mul, div-mul-le_self,
  le-div_iff_mul-le, pow-suc,
}
use suky_tradin_bot.Base.{
  ℕ, zero, suc, ◌+◌, ◌*◌, ◌/◌, ◌^◌, ◌≤◌, ◌<◌, ◌≡◌, refl, ◌⊎◌, true, not, ◌&&◌, some, arith,
}
use suky_tradin_bot.Base.Int.{ℤ, pos, negsuc, pos_part, neg_part, sub_ℕ, ◌+ℤ◌, ◌-ℤ◌, leb_ℤ, ltb_ℤ}
use suky_tradin_bot.Float.Defs.{Float, IsFloat, ◌≼◌, IsUnit, zero_f, one_f}

abbrev scale : ℕ
scale = 1_000_000_000

-- The number of billionths.
pub data Fixed : Type 0 where
  fixed : ℤ → Fixed

abbrev billionths : Fixed → ℤ
billionths (fixed n) = n

-- The product and the quotient lose what is below a billionth.
abbrev scaled_mul : ℤ → ℤ → ℤ
scaled_mul a b =
    sub_ℕ ((pos_part a * pos_part b + neg_part a * neg_part b) / scale)
      ((pos_part a * neg_part b + neg_part a * pos_part b) / scale)

abbrev scaled_div : ℤ → ℤ → ℤ
scaled_div a (pos n) = sub_ℕ (pos_part a * scale / n) (neg_part a * scale / n)
scaled_div a (negsuc n) = sub_ℕ (neg_part a * scale / suc n) (pos_part a * scale / suc n)

abbrev floor_of : ℤ → ℤ
floor_of (pos n) = pos (n / scale)
floor_of (negsuc n) = negsuc (n / scale)

instance abbrev pub fixed_float : Float Fixed
fixed_float = record {
  decimal = λ n k. fixed (pos (n * scale / 10 ^ k));
  infinity = fixed (pos (10 ^ 30));
  add = λ a b. fixed (billionths a +ℤ billionths b);
  sub = λ a b. fixed (billionths a -ℤ billionths b);
  mul = λ a b. fixed (scaled_mul (billionths a) (billionths b));
  div = λ a b. fixed (scaled_div (billionths a) (billionths b));
  abs = λ a. fixed (pos (pos_part (billionths a) + neg_part (billionths a)));
  le = λ a b. leb_ℤ (billionths a) (billionths b);
  lt = λ a b. ltb_ℤ (billionths a) (billionths b);
  eq = λ a b. leb_ℤ (billionths a) (billionths b) && leb_ℤ (billionths b) (billionths a);
  floor = λ a. some (floor_of (billionths a));
  show = λ spec _. spec;
}

le_trans : (x y z : Fixed) → x ≼ y → y ≼ z → x ≼ z
le_trans (fixed a) (fixed b) (fixed c) h k = ground arith

lt_lem : (x y : Fixed) → fixed_float.lt x y ≡ (fixed_float.le x y && not (fixed_float.le y x))
lt_lem (fixed a) (fixed b) = ground arith

sub_unit : (x t : Fixed) → IsUnit x → zero_f ≼ t → t ≼ one_f → fixed_float.sub x t ≼ x
sub_unit (fixed a) (fixed b) h k l = ground arith

sub_mono :
    (x y t : Fixed)
    → IsUnit x
    → IsUnit y
    → IsUnit t
    → x ≼ y
    → fixed_float.sub x t ≼ fixed_float.sub y t
sub_mono (fixed a) (fixed b) (fixed c) h k l m = ground arith

one-sub-IsUnit : (x : Fixed) → IsUnit x → IsUnit (fixed_float.sub one_f x)
one-sub-IsUnit (fixed a) h = ground arith

product_le : (a b : ℕ) → b ≤ scale → a * b / scale ≤ a
product_le a b k = let bounded = mul-le-mul_left a k in div-le_of_le-mul scale (omega arith)

mul_share :
    (x y : Fixed)
    → zero_f ≼ x
    → fixed_float.lt x fixed_float.infinity ≡ true
    → IsUnit y
    → (zero_f ≼ fixed_float.mul x y) × (fixed_float.mul x y ≼ x)
mul_share (fixed (pos a)) (fixed (pos b)) h f k = ground (arith, product_le a b)
mul_share (fixed (pos a)) (fixed (negsuc b)) h f k = ground arith
mul_share (fixed (negsuc a)) (fixed b) h f k = ground arith

literal_finite :
    (n : ℕ) → n ≤ 2 ^ 53 → fixed_float.lt (fixed_float.decimal n 0) fixed_float.infinity ≡ true
literal_finite n h = ground arith

add_literal :
    (x y : Fixed) (n m : ℕ)
    → zero_f ≼ x
    → zero_f ≼ y
    → x ≼ fixed_float.decimal n 0
    → y ≼ fixed_float.decimal m 0
    → n + m ≤ 2 ^ 53
    → fixed_float.add x y ≼ fixed_float.decimal (n + m) 0
add_literal (fixed a) (fixed b) n m h k u v w = ground arith

div_scale_le : (a b : ℕ) → a ≤ b → a * scale / b ≤ scale
div_scale_le a b h = div-le_of_le-mul b (mul-le-mul_right scale h)

div-IsUnit :
    (x y : Fixed)
    → zero_f ≼ x
    → x ≼ y
    → fixed_float.lt zero_f y ≡ true
    → fixed_float.lt y fixed_float.infinity ≡ true
    → IsUnit (fixed_float.div x y)
div-IsUnit (fixed (pos a)) (fixed (pos b)) h k l m = ground (arith, div_scale_le a b)
div-IsUnit (fixed (negsuc a)) (fixed (pos b)) h k l m = ground arith
div-IsUnit (fixed a) (fixed (negsuc b)) h k l m = ground arith

div_nonneg :
    (x y : Fixed)
    → zero_f ≼ x
    → x ≼ fixed_float.decimal 2 0
    → fixed_float.lt zero_f y ≡ true
    → zero_f ≼ fixed_float.div x y
div_nonneg (fixed (pos a)) (fixed (pos b)) h k l = ground arith
div_nonneg (fixed (negsuc a)) (fixed (pos b)) h k l = ground arith
div_nonneg (fixed a) (fixed (negsuc b)) h k l = ground arith

rescale : (n m p q : ℕ) → 0 < p → 0 < q → n * q ≤ m * p → n * scale / p ≤ m * scale / q
rescale n m p q hp hq h =
    let low = mul-le-mul_right q (div-mul-le_self (n * scale) p) in
    let scaled : (n * scale / p * q) * p ≤ (m * scale) * p = omega arith in
    (le-div_iff_mul-le hq).1 (le_of_mul-le-mul_right scaled hp)

pow_pos : (k : ℕ) → 0 < 10 ^ k
pow_pos zero = omega arith
pow_pos (suc k) = rw (pow-suc 10 k) (omega (arith, pow_pos k))

decimal_le : (n k m l : ℕ) → n * 10 ^ l ≤ m * 10 ^ k → n * scale / 10 ^ k ≤ m * scale / 10 ^ l
decimal_le n k m l h = rescale n m (10 ^ k) (10 ^ l) (pow_pos k) (pow_pos l) h

decimal_mono :
    (n k m l : ℕ) → n * 10 ^ l ≤ m * 10 ^ k → fixed_float.decimal n k ≼ fixed_float.decimal m l
decimal_mono n k m l h = ground (arith, decimal_le n k m l h)

add_mono :
    (x y u v : Fixed)
    → zero_f ≼ x
    → x ≼ y
    → zero_f ≼ u
    → u ≼ v
    → fixed_float.add x u ≼ fixed_float.add y v
add_mono (fixed a) (fixed b) (fixed c) (fixed d) h k l m = ground arith

le-add :
    (x y : Fixed) → zero_f ≼ x → zero_f ≼ y → (x ≼ fixed_float.add x y) × (y ≼ fixed_float.add x y)
le-add (fixed a) (fixed b) h k = ground arith

le_total : (x y : Fixed) → x ≼ x → y ≼ y → (x ≼ y) ⊎ (y ≼ x)
le_total (fixed a) (fixed b) h k = ground arith

le_numbers : (x y : Fixed) → x ≼ y → (x ≼ x) × (y ≼ y)
le_numbers (fixed a) (fixed b) h = ground arith

eq_lem : (x y : Fixed) → fixed_float.eq x y ≡ (fixed_float.le x y && fixed_float.le y x)
eq_lem (fixed a) (fixed b) = refl

pub Fixed-IsFloat : IsFloat Fixed
Fixed-IsFloat = record {
  le_trans = le_trans;
  le_total = le_total;
  le_numbers = le_numbers;
  lt_lem = lt_lem;
  eq_lem = eq_lem;
  decimal_mono = decimal_mono;
  one_not_le_zero = refl;
  literal_finite = literal_finite;
  one_not_le_half = refl;
  sub_unit = sub_unit;
  sub_mono = sub_mono;
  one-sub-IsUnit = one-sub-IsUnit;
  mul_share = mul_share;
  add_literal = add_literal;
  div-IsUnit = div-IsUnit;
  div_nonneg = div_nonneg;
  add_mono = add_mono;
  le-add = le-add;
}
