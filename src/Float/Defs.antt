-- ===== src/Float/Defs.antt =====
-- The operations of `float` that the program calls, and the laws of IEEE 754 that are relied on.
use suky_tradin_bot.Base.{
  ℕ, ◌+◌, ◌*◌, ◌^◌, ◌≤◌, ◌≡◌, ◌⊎◌, Bool, true, false, not, ◌&&◌, Option, String, if◌then◌else◌,
  List, [], ◌∷◌, suc,
}
use suky_tradin_bot.Base.Int.{ℤ, pos, negsuc}

pub record Float (F : Type 0) : Type 0 where
  -- The literal `n * 10 ** -k`, rounded to the nearest double: `decimal 15 2` is `0.15`.
  pub decimal : ℕ → ℕ → F
  -- `float("inf")`
  pub infinity : F
  pub add : F → F → F
  pub sub : F → F → F
  pub mul : F → F → F
  -- The quotient by a divisor that is not zero; the code tests the divisor first.
  pub div : F → F → F
  pub abs : F → F
  pub le : F → F → Bool
  pub lt : F → F → Bool
  pub eq : F → F → Bool
  -- `math.floor`; `none` is its exception on infinities and NaN.
  pub floor : F → Option ℤ
  -- `format(x, spec)`, the text of a float inside an f-string.
  pub show : String → F → String

module _ {F : Type 0} ⦃fl : Float F⦄ where
  open fl use {decimal, le, lt, add}

  abbrev pub zero_f : F
  zero_f = decimal 0 0

  abbrev pub one_f : F
  one_f = decimal 1 0

  -- `float(n)`
  abbrev pub of_int : ℤ → F
  of_int (pos n) = decimal n 0
  of_int (negsuc n) = fl.sub (decimal 0 0) (decimal (suc n) 0)

  infix 50 ◌≼◌
  abbrev pub ◌≼◌ : F → F → Type 0
  x ≼ y = le x y ≡ true

  -- `0.0 <= x <= 1.0`
  abbrev pub in_unit : F → Bool
  in_unit x = le zero_f x && le x one_f

  abbrev pub IsUnit : F → Type 0
  IsUnit x = (zero_f ≼ x) × (x ≼ one_f)

  -- Python's `min(a, b)` keeps the first argument unless the second is smaller.
  abbrev pub min_f : F → F → F
  min_f a b = if lt b a then b else a

  -- Python's `max(a, b)` keeps the first argument unless the second is larger.
  abbrev pub max_f : F → F → F
  max_f a b = if lt a b then b else a

  -- `sum(xs)` adds from the left and starts with zero.
  unfoldable pub sum_from : F → List F → F
  sum_from acc [] = acc
  sum_from acc (x ∷ xs) = sum_from (add acc x) xs

  abbrev pub sum_f : List F → F
  sum_f xs = sum_from zero_f xs

-- A double that is NaN is not `<=` itself, so `le x x` says that `x` is a number.
pub record IsFloat (F : Type 0) ⦃fl : Float F⦄ : Type 0 where
  pub le_trans : (x y z : F) → x ≼ y → y ≼ z → x ≼ z
  pub le_total : (x y : F) → x ≼ x → y ≼ y → (x ≼ y) ⊎ (y ≼ x)
  pub le_numbers : (x y : F) → x ≼ y → (x ≼ x) × (y ≼ y)
  pub lt_lem : (x y : F) → fl.lt x y ≡ (fl.le x y && not (fl.le y x))
  pub eq_lem : (x y : F) → fl.eq x y ≡ (fl.le x y && fl.le y x)
  pub decimal_mono : (n k m l : ℕ) → n * 10 ^ l ≤ m * 10 ^ k → fl.decimal n k ≼ fl.decimal m l
  pub one_not_le_zero : fl.le one_f zero_f ≡ false
  pub literal_finite : (n : ℕ) → n ≤ 2 ^ 53 → fl.lt (fl.decimal n 0) fl.infinity ≡ true
  pub one_not_le_half : fl.le one_f (fl.decimal 50 2) ≡ false
  -- Rounding is monotone, and both ends are doubles: these are the exact facts, rounded.
  pub sub_unit : (x t : F) → IsUnit x → zero_f ≼ t → t ≼ one_f → fl.sub x t ≼ x
  pub sub_mono : (x y t : F) → IsUnit x → IsUnit y → IsUnit t → x ≼ y → fl.sub x t ≼ fl.sub y t
  pub one-sub-IsUnit : (x : F) → IsUnit x → IsUnit (fl.sub one_f x)
  pub mul_share :
      (x y : F)
      → zero_f ≼ x
      → fl.lt x fl.infinity ≡ true
      → IsUnit y
      → (zero_f ≼ fl.mul x y) × (fl.mul x y ≼ x)
  pub div-IsUnit :
      (x y : F)
      → zero_f ≼ x
      → x ≼ y
      → fl.lt zero_f y ≡ true
      → fl.lt y fl.infinity ≡ true
      → IsUnit (fl.div x y)
  pub div_nonneg :
      (x y : F) → zero_f ≼ x → x ≼ fl.decimal 2 0 → fl.lt zero_f y ≡ true → zero_f ≼ fl.div x y
  pub add_mono : (x y u v : F) → zero_f ≼ x → x ≼ y → zero_f ≼ u → u ≼ v → fl.add x u ≼ fl.add y v
  pub add_literal :
      (x y : F) (n m : ℕ)
      → zero_f ≼ x
      → zero_f ≼ y
      → x ≼ fl.decimal n 0
      → y ≼ fl.decimal m 0
      → n + m ≤ 2 ^ 53
      → fl.add x y ≼ fl.decimal (n + m) 0
  pub le-add : (x y : F) → zero_f ≼ x → zero_f ≼ y → (x ≼ fl.add x y) × (y ≼ fl.add x y)
