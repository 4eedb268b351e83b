-- ===== src/Execution/Router.antt =====
-- `route` (src/execution/router.py): how many shares move the position to its target.
use suky_tradin_bot.Execution.Order.{sell, buy, OrderSide}
use suky_tradin_bot.Base.{◌≡◌, ap, false, Option, none, some, ◌⊎◌, if◌then◌else◌, arith}
use suky_tradin_bot.Base.Int.{ℤ, pos, ltb_ℤ, ◌≤ℤ◌}
use suky_tradin_bot.Float.{Float, zero_f, one_f}
use suky_tradin_bot.Common.Errors.{Result, ok, err, value_error, ◌>>◌, ◌>>=◌, reject_if}
use suky_tradin_bot.Risk.Portfolio.{PortfolioState, ticker_value}
use suky_tradin_bot.Risk.Exposure.{held_in_ticker, ticker_value_lem}
use suky_tradin_bot.Risk.Decision.{ExecutionDecision}

pub record RoutingDecision : Type 0 where
  pub side : OrderSide
  pub quantity : ℤ

-- `min` of two integers.
abbrev pub min_ℤ : ℤ → ℤ → ℤ
min_ℤ a b = if ltb_ℤ b a then b else a

-- A quantity below one share is no order.
abbrev pub order_of : OrderSide → ℤ → Option RoutingDecision
order_of side quantity =
    if ltb_ℤ quantity (pos 1) then none else some (record { side = side; quantity = quantity })

abbrev floor_or_zero : Option ℤ → ℤ
floor_or_zero none = pos 0
floor_or_zero (some n) = n

module _ {F : Type 0} ⦃fl : Float F⦄ where
  open fl use {sub, mul, div, abs, le, lt, floor}

  -- `math.floor`, which raises on infinities and NaN.
  abbrev pub whole : F → Result ℤ
  whole x = elim (floor x) [ none ↦ err (value_error "math.floor") | some n ↦ ok n ]

  -- The value that the position has to gain, or to lose.
  unfoldable pub delta_value : ExecutionDecision F → PortfolioState F → F
  delta_value e p = sub (mul e.approved_allocation p.equity) (ticker_value e.symbol p)

  unfoldable pub route_buy : F → F → Result (Option RoutingDecision)
  route_buy delta reference_price = do
    quantity ← whole (div delta reference_price)
    ok (order_of buy quantity)

  unfoldable pub route_sell : F → F → F → Result (Option RoutingDecision)
  route_sell delta current reference_price = do
    quantity ← whole (div (abs delta) reference_price)
    max_sellable ← whole (div current reference_price)
    ok (order_of sell (min_ℤ quantity max_sellable))

  unfoldable pub route :
      ExecutionDecision F → PortfolioState F → F → Result (Option RoutingDecision)
  route e p reference_price = do
    reject_if (le reference_price zero_f) "reference_price must be > 0"
    let delta = delta_value e p
    (if lt (abs delta) one_f
        then ok none
        else if lt zero_f delta
        then route_buy delta reference_price
        else route_sell delta (ticker_value e.symbol p) reference_price)

  -- The target value less the holding.
  abbrev pub gap : ExecutionDecision F → PortfolioState F → F
  gap e p = sub (mul e.approved_allocation p.equity) (held_in_ticker e.symbol p)

  delta_value_lem : (e : ExecutionDecision F) (p : PortfolioState F) → delta_value e p ≡ gap e p
  unfolding delta_value
  delta_value_lem e p = ap (sub (mul e.approved_allocation p.equity)) (ticker_value_lem e.symbol p)

  module _ (e : ExecutionDecision F) (p : PortfolioState F) (price : F) {r : RoutingDecision}
      (routed : route e p price ≡ ok (some r)) where
    pub route_quantity : (pos 1 ≤ℤ r.quantity) × (le price zero_f ≡ false)
    unfolding route route_buy route_sell
    route_quantity = ground arith

    route_sell_bounds :
        r.side ≡ sell
        → (n : ℤ) × (m : ℤ) × (floor (div (abs (delta_value e p)) price) ≡ some n)
          × (floor (div (ticker_value e.symbol p) price) ≡ some m)
          × (pos 1 ≤ℤ r.quantity)
          × (r.quantity ≤ℤ n)
          × (r.quantity ≤ℤ m)
          × ((r.quantity ≡ n) ⊎ (r.quantity ≡ m))
          × (lt zero_f (delta_value e p) ≡ false)
    unfolding route route_buy route_sell
    route_sell_bounds side = (
      floor_or_zero (floor (div (abs (delta_value e p)) price)),
      floor_or_zero (floor (div (ticker_value e.symbol p) price)),
      ground arith,
      ground arith,
      ground arith,
      ground arith,
      ground arith,
      ground arith,
      ground arith,
    )

    -- A routed sell is for a target that is not above what the portfolio holds of the ticker, added
    -- up over its positions. It is of at least one share, of at most the whole shares that the gap
    -- is worth at the price, and of at most those that the holding is worth at the price, and it is
    -- one of these two numbers.
    pub route_sells :
        r.side ≡ sell
        → (n : ℤ) × (m : ℤ) × (floor (div (abs (gap e p)) price) ≡ some n)
          × (floor (div (held_in_ticker e.symbol p) price) ≡ some m)
          × (pos 1 ≤ℤ r.quantity)
          × (r.quantity ≤ℤ n)
          × (r.quantity ≤ℤ m)
          × ((r.quantity ≡ n) ⊎ (r.quantity ≡ m))
          × (lt zero_f (gap e p) ≡ false)
    route_sells side =
        rw (delta_value_lem e p, ticker_value_lem e.symbol p) at (route_sell_bounds side)
