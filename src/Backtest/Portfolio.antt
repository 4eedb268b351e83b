-- ===== src/Backtest/Portfolio.antt =====
-- `PortfolioEngine` (src/backtest/portfolio.py). The engine is changed in place, so every operation
-- returns the engine that it leaves, also where it raises. What `date` and `isocalendar` make of a
-- datetime is a parameter.
use suky_tradin_bot.Base.{
  Bool, true, not, ℕ, ◌==◌, ◌&&◌, String, List, [], ◌∷◌, Option, none, some, if◌then◌else◌,
}
use suky_tradin_bot.Base.Int.{ℤ, pos, ◌+ℤ◌, ◌-ℤ◌, ltb_ℤ}
use suky_tradin_bot.Common.Time.{Datetime, elapsed}
use suky_tradin_bot.Common.Dict.{Dict, lookup, insert, erase}
use suky_tradin_bot.Common.Errors.{
  Result, ok, err, construct, ◌>>=◌, ◌>>◌, reject_if, key_error, value_error,
}
use suky_tradin_bot.Float.{Float, zero_f, of_int, max_f, sum_f}
use suky_tradin_bot.Execution.Order.{buy}
use suky_tradin_bot.Risk.Portfolio.{
  Position, PortfolioState, AccountState, check_position, check_account_state,
}
use suky_tradin_bot.Backtest.Trade.{
  OpenPosition, TradeRecord, check_open_position, check_trade_record, market_value,
}

-- The day of a datetime, and its ISO year and week.
pub record Calendar : Type 0 where
  pub date : Datetime → ℕ
  pub isoweek : Datetime → ℕ × ℕ

pub record PortfolioEngine (F : Type 0) : Type 0 where
  pub cash : F
  pub positions : Dict (OpenPosition F)
  pub equity_start_of_day : F
  pub equity_start_of_week : F
  pub equity_peak : F
  pub current_day : Option ℕ
  pub current_week : Option (ℕ × ℕ)

-- What `open_or_add` is told of the order that was filled.
pub record Buy (F : Type 0) : Type 0 where
  pub symbol : String
  pub sector : String
  pub strategy_id : String
  pub regime_id : ℤ
  pub timestamp : Datetime
  pub fill_price : F
  pub quantity : ℤ

-- What `reduce_or_close` is told.
pub record Sale (F : Type 0) : Type 0 where
  pub symbol : String
  pub timestamp : Datetime
  pub fill_price : F
  pub quantity : ℤ

-- `min` of two ints.
abbrev pub min_ℤ : ℤ → ℤ → ℤ
min_ℤ a b = if ltb_ℤ b a then b else a

-- `d[k]` for a key that may be missing.
unfoldable pub value_at {ℓ} : {V : Type ℓ} → Dict V → String → Result V
value_at d k = elim (lookup k d) [ none ↦ err (key_error k) | some v ↦ ok v ]

-- `current != day`
unfoldable pub other_day : Option ℕ → ℕ → Bool
other_day none d = true
other_day (some e) d = not (e == d)

unfoldable pub other_week : Option (ℕ × ℕ) → ℕ × ℕ → Bool
other_week none w = true
other_week (some (y, n)) (z, m) = not (y == z && n == m)

-- `sector_map.get(symbol, default)`
unfoldable pub sector_of : Dict String → String → String → String
sector_of sectors symbol default = elim (lookup symbol sectors) [ none ↦ default | some s ↦ s ]

module _ {F : Type 0} ⦃fl : Float F⦄ where
  open fl use {add, sub, mul, div, le, lt}

  -- `PortfolioEngine(cash=...)`
  unfoldable pub portfolio_engine : F → Result (PortfolioEngine F)
  portfolio_engine cash = do
    reject_if (le cash zero_f) "cash must be > 0"
    ok (record {
      cash = cash;
      positions = [];
      equity_start_of_day = cash;
      equity_start_of_week = cash;
      equity_peak = cash;
      current_day = none;
      current_week = none;
    })

  -- The market values of the positions, in order; a symbol without a price raises.
  unfoldable pub values_of : Dict F → Dict (OpenPosition F) → Result (List F)
  values_of prices [] = ok []
  values_of prices ((symbol, p) ∷ rest) = do
    price ← value_at prices symbol
    others ← values_of prices rest
    ok (market_value p price ∷ others)

  unfoldable pub equity : PortfolioEngine F → Dict F → Result F
  equity e prices = values_of prices e.positions >>= λ values. ok (add e.cash (sum_f values))

  -- `on_new_bar`, once the equity is known.
  unfoldable pub roll : Calendar → PortfolioEngine F → Datetime → F → PortfolioEngine F
  roll c e timestamp current = record e {
    equity_start_of_day =
        if other_day e.current_day (c.date timestamp) then current else e.equity_start_of_day;
    equity_start_of_week =
        if other_week e.current_week (c.isoweek timestamp) then current else e.equity_start_of_week;
    equity_peak = max_f e.equity_peak current;
    current_day = some (c.date timestamp);
    current_week = some (c.isoweek timestamp);
  }

  -- `on_new_bar`
  unfoldable pub on_new_bar :
      Calendar → PortfolioEngine F → Datetime → Dict F → Result (PortfolioEngine F)
  on_new_bar c e timestamp prices = equity e prices >>= λ current. ok (roll c e timestamp current)

  unfoldable pub positions_at :
      Dict F → Dict String → Dict (OpenPosition F) → Result (List (Position F))
  positions_at prices sectors [] = ok []
  positions_at prices sectors ((symbol, p) ∷ rest) = do
    price ← value_at prices symbol
    position ← construct check_position (record {
      ticker = symbol;
      sector = sector_of sectors symbol p.sector;
      market_value = market_value p price;
    })
    others ← positions_at prices sectors rest
    ok (position ∷ others)

  -- `snapshot`
  unfoldable pub snapshot : PortfolioEngine F → Dict F → Dict String → Result (PortfolioState F)
  snapshot e prices sectors = do
    positions ← positions_at prices sectors e.positions
    current ← equity e prices
    ok (record {
      equity = current;
      positions = positions;
      equity_start_of_day = e.equity_start_of_day;
      equity_start_of_week = e.equity_start_of_week;
      equity_peak = e.equity_peak;
    })

  -- `account_state`
  unfoldable pub account_state : PortfolioEngine F → Result (AccountState F)
  account_state e = construct check_account_state (record { buying_power = max_f e.cash zero_f })

  -- The position that a buy opens, or that it tops up. (An order's quantity is at least one, so
  -- the divisor is not zero.)
  unfoldable pub bought : Option (OpenPosition F) → Buy F → OpenPosition F
  bought none b = record {
    symbol = b.symbol;
    sector = b.sector;
    strategy_id = b.strategy_id;
    regime_id = b.regime_id;
    entry_timestamp = b.timestamp;
    entry_price = b.fill_price;
    quantity = b.quantity;
  }
  bought (some p) b =
      let total = p.quantity +ℤ b.quantity in
      record p {
        symbol = b.symbol;
        entry_price =
            div (add (mul p.entry_price (of_int p.quantity)) (mul b.fill_price (of_int b.quantity)))
              (of_int total);
        quantity = total;
      }

  -- Puts a position under its symbol once it is checked; where the check raises, nothing changes.
  unfoldable pub stored :
      PortfolioEngine F
      → String
      → OpenPosition F
      → Result (Unit {0})
      → PortfolioEngine F × Result (Unit {0})
  stored e symbol p (err x) = (e, err x)
  stored e symbol p (ok u) = (record e { positions = insert symbol p e.positions }, ok tt)

  unfoldable pub put :
      PortfolioEngine F → String → OpenPosition F → PortfolioEngine F × Result (Unit {0})
  put e symbol p = stored e symbol p (check_open_position p)

  -- `open_or_add`: the cash is spent first.
  unfoldable pub open_or_add : PortfolioEngine F → Buy F → PortfolioEngine F × Result (Unit {0})
  open_or_add e b =
      put (record e { cash = sub e.cash (mul b.fill_price (of_int b.quantity)) }) b.symbol
        (bought (lookup b.symbol e.positions) b)

  -- The record of a sale of `sold` shares of `p`.
  unfoldable pub trade_of : OpenPosition F → Sale F → ℤ → TradeRecord F
  trade_of p s sold =
      let pnl = mul (sub s.fill_price p.entry_price) (of_int sold) in
      let entry_notional = mul p.entry_price (of_int sold) in
      record {
        symbol = s.symbol;
        strategy_id = p.strategy_id;
        regime_id = p.regime_id;
        side = buy;
        entry_timestamp = p.entry_timestamp;
        exit_timestamp = s.timestamp;
        entry_price = p.entry_price;
        exit_price = s.fill_price;
        quantity = sold;
        pnl = pnl;
        pnl_pct = if lt zero_f entry_notional then div pnl entry_notional else zero_f;
        holding_period = elapsed p.entry_timestamp s.timestamp;
      }

  -- The rest of the position is kept, or the position is removed.
  unfoldable pub keep_rest :
      PortfolioEngine F → String → OpenPosition F → ℤ → PortfolioEngine F × Result (Unit {0})
  keep_rest e symbol p remaining =
      if ltb_ℤ (pos 0) remaining
      then put e symbol (record p { quantity = remaining })
      else (record e { positions = erase symbol e.positions }, ok tt)

  -- The sale out of a position, once the cash is paid in and the trade is checked.
  unfoldable pub settle_sale :
      PortfolioEngine F
      → OpenPosition F
      → Sale F
      → ℤ
      → Result (Unit {0})
      → PortfolioEngine F × Result (TradeRecord F)
  settle_sale e p s sold (err x) = (e, err x)
  settle_sale e p s sold (ok u) =
      let (f, r) = keep_rest e s.symbol p (p.quantity -ℤ sold) in
      (f, r >>= λ _. ok (trade_of p s sold))

  unfoldable pub reduce_found :
      PortfolioEngine F
      → Sale F
      → Option (OpenPosition F)
      → PortfolioEngine F × Result (TradeRecord F)
  reduce_found e s none = (e, err (value_error "no open position to reduce"))
  reduce_found e s (some p) =
      let sold = min_ℤ s.quantity p.quantity in
      settle_sale (record e { cash = add e.cash (mul s.fill_price (of_int sold)) }) p s sold
        (check_trade_record (trade_of p s sold))

  -- `reduce_or_close`
  unfoldable pub reduce_or_close :
      PortfolioEngine F → Sale F → PortfolioEngine F × Result (TradeRecord F)
  reduce_or_close e s = reduce_found e s (lookup s.symbol e.positions)

  -- `position.quantity if position is not None else 0`
  unfoldable pub shares : Option (OpenPosition F) → ℤ
  shares none = pos 0
  shares (some p) = p.quantity

  -- `open_quantity`
  unfoldable pub open_quantity : PortfolioEngine F → String → ℤ
  open_quantity e symbol = shares (lookup symbol e.positions)
