-- ===== src/Tests/Market.antt =====
-- The bars, the polls and the simulated portfolio at concrete inputs.
use suky_tradin_bot.MarketData.RateLimit.{
  acquire_loop, IsGranted, RateLimiter, acquire, try_acquire, acquire_loop_grants, refill,
}
use suky_tradin_bot.Common.Dict.{lookup, insert, erase}
use suky_tradin_bot.MarketData.Missing.{nth_bar, is_due, minutes, Fits, find_missing_bars_answers}
use suky_tradin_bot.Execution.Router.{min_ℤ}
use suky_tradin_bot.Common.Time.{Datetime, aware, require_utc, earlier, naive}
use suky_tradin_bot.Common.Errors.{Result, ok, err, value_error, data_fetch, type_error}
use suky_tradin_bot.MarketData.Models.{Bar, min_1, day_1}
use suky_tradin_bot.MarketData.Validation.{
  deduplicate_bars, find_missing_bars, is_in, delta, wanted, weekday, local_micros, advance,
  expected_timestamps, expected_from,
}
use suky_tradin_bot.Base.Int.{pos, ◌+ℤ◌, ◌-ℤ◌, ◌-ℤ◌, ◌+ℤ◌}
use suky_tradin_bot.MarketData.Dedup.{IsAscending, bar_at, last_at, deduplicate_bars-IsAscending}
use suky_tradin_bot.Backtest.Holdings.{IsLongOnly, open_or_add-Held, reduce_or_close-Held}
use suky_tradin_bot.Base.{
  List, ℕ, Option, [], String, none, ◌∷◌, some, ◌≡◌, ◌≡◌, ◌∷◌, suc, if◌then◌else◌, str_eq, refl,
  ◌&&◌, ◌&&◌, not, map, ◌*◌, ◌*◌, arith,
}
use suky_tradin_bot.Backtest.Trade.{TradeRecord, check_open_position, check_trade_record}
use suky_tradin_bot.Float.Fixed.{Fixed, Fixed-IsFloat}
use suky_tradin_bot.Float.Fixed.{fixed_float}
use suky_tradin_bot.Tests.Data.{number}
use suky_tradin_bot.Execution.Order.{buy}
use suky_tradin_bot.Backtest.Portfolio.{
  PortfolioEngine, Buy, Sale, open_or_add, reduce_or_close, put, stored, open_quantity, bought,
  reduce_found, settle_sale, keep_rest, trade_of,
}

abbrev at_time : ℕ → Datetime
at_time n = aware (pos 0) n

-- A bar with a closing price.
abbrev bar : ℕ → ℕ → Bar Fixed
bar n close = record {
  symbol = "SPY";
  timestamp = at_time n;
  timeframe = min_1;
  opening = number 400 0;
  high = number 500 0;
  low = number 300 0;
  close = number close 0;
  volume = number 10 0;
  trade_count = none;
  vwap = none;
}

abbrev given : List (Bar Fixed)
given = bar 120_000_000 401 ∷ bar 60_000_000 400 ∷ bar 120_000_000 402 ∷ []

deduplicate_bars-IsAscending_example :
    IsAscending (deduplicate_bars given)
    × ((t : Datetime) → bar_at t (deduplicate_bars given) ≡ last_at t given none)
deduplicate_bars-IsAscending_example = deduplicate_bars-IsAscending given (refl, (refl, (refl, tt)))

-- Friday the 2nd of January 1970, 20:00 in UTC, by a clock five hours ahead: Saturday there.
abbrev friday : Datetime
friday = aware (pos 18_000) 158_400_000_000

-- That day and Sunday are not due; Monday and Tuesday are.
skips_the_weekend :
    find_missing_bars {F = Fixed} [] day_1 friday (aware (pos 18_000) 417_600_000_001)
    ≡ some (ok (aware (pos 18_000) 331_200_000_000 ∷ aware (pos 18_000) 417_600_000_000 ∷ []))
unfolding find_missing_bars expected_timestamps expected_from delta wanted weekday local_micros
    advance is_in
skips_the_weekend = refl

mixed_range :
    find_missing_bars given min_1 (naive 0) (at_time 240_000_000)
    ≡ some (err (type_error "can't compare offset-naive and offset-aware datetimes"))
unfolding find_missing_bars expected_timestamps expected_from delta
mixed_range = refl

few : Fits (at_time 0) (at_time 240_000_000) (minutes min_1 * 60_000_000)
unfolding local_micros
few = omega arith

find_missing_bars_answers_example :
    (missing : List Datetime) × (find_missing_bars given min_1 (at_time 0) (at_time 240_000_000)
      ≡ some (ok missing))
    × ((k : ℕ)
        → is_in (nth_bar min_1 (at_time 0) k) missing ≡ (
            (earlier (nth_bar min_1 (at_time 0) k) (at_time 240_000_000)
              && is_due min_1 (nth_bar min_1 (at_time 0) k))
            && not (is_in (nth_bar min_1 (at_time 0) k) (map (λ b. b.timestamp) given))))
find_missing_bars_answers_example =
    find_missing_bars_answers given min_1 (at_time 0) (at_time 240_000_000) refl few

-- A callback that counts the bars and always raises.
abbrev counting : Option (Bar Fixed → ℕ → ℕ × Result (Unit {0}))
counting = some λ b n. (suc n, err (value_error "failed"))

abbrev answers : List (Result (List (Bar Fixed)))
answers =
    ok (bar 60_000_000 400 ∷ bar 120_000_000 401 ∷ [])
    ∷ err (data_fetch "no connection")
    ∷ ok (bar 120_000_000 401 ∷ bar 180_000_000 402 ∷ [])
    ∷ []

abbrev engine : PortfolioEngine Fixed
engine = record {
  cash = number 10_000 0;
  positions = [];
  equity_start_of_day = number 10_000 0;
  equity_start_of_week = number 10_000 0;
  equity_peak = number 10_000 0;
  current_day = none;
  current_week = none;
}

abbrev purchase : Buy Fixed
purchase = record {
  symbol = "SPY";
  sector = "index";
  strategy_id = "bull";
  regime_id = pos 1;
  timestamp = at_time 1000;
  fill_price = number 400 0;
  quantity = pos 10;
}

abbrev sale : Sale Fixed
sale = record {
  symbol = "SPY";
  timestamp = at_time 3000;
  fill_price = number 420 0;
  quantity = pos 12;
}

bought_ten : open_or_add engine purchase ≡ ((open_or_add engine purchase).0, ok tt)
unfolding open_or_add put stored check_open_position require_utc bought lookup insert
bought_ten = refl

abbrev holding : PortfolioEngine Fixed
holding = (open_or_add engine purchase).0

holding-IsLongOnly : IsLongOnly holding
unfolding open_or_add put stored check_open_position require_utc bought lookup insert
holding-IsLongOnly = (refl, (refl, refl), tt)

abbrev sold : TradeRecord Fixed
sold = record {
  symbol = "SPY";
  strategy_id = "bull";
  regime_id = pos 1;
  side = buy;
  entry_timestamp = at_time 1000;
  exit_timestamp = at_time 3000;
  entry_price = number 400 0;
  exit_price = number 420 0;
  quantity = pos 10;
  pnl = number 200 0;
  pnl_pct = number 5 2;
  holding_period = pos 2000;
}

sold_ten : reduce_or_close holding sale ≡ ((reduce_or_close holding sale).0, ok sold)
unfolding open_or_add put stored check_open_position require_utc bought lookup insert
    reduce_or_close reduce_found settle_sale keep_rest trade_of check_trade_record erase
sold_ten = refl

open_or_add-Held_example :
    IsLongOnly holding
    × ((t : String)
        → open_quantity holding t
          ≡ (if str_eq "SPY" t then open_quantity engine t +ℤ pos 10 else open_quantity engine t))
open_or_add-Held_example = open_or_add-Held engine purchase holding tt bought_ten

reduce_or_close-Held_example :
    IsLongOnly (reduce_or_close holding sale).0
    × (pos 10 ≡ min_ℤ (pos 12) (open_quantity holding "SPY"))
    × ((t : String)
        → open_quantity (reduce_or_close holding sale).0 t
          ≡ (if str_eq "SPY" t then open_quantity holding t -ℤ pos 10 else open_quantity holding t))
reduce_or_close-Held_example =
    reduce_or_close-Held holding sale (reduce_or_close holding sale).0 sold holding-IsLongOnly
      sold_ten

abbrev bucket : RateLimiter Fixed
bucket = record {
  rate = number 1 0;
  capacity = number 2 0;
  tokens = number 0 0;
  last_refill = at_time 0;
}

-- Half a token after half a second, so the limiter waits for the second reading.
abbrev spent : RateLimiter Fixed
spent = record {
  rate = number 1 0;
  capacity = number 2 0;
  tokens = number 0 0;
  last_refill = at_time 1_000_000;
}

waits_once :
    acquire (number 1 0) (at_time 500_000 ∷ (at_time 1_000_000 ∷ [])) bucket
    ≡ ok (number 5 1 ∷ [], some spent)
unfolding acquire acquire_loop try_acquire refill
waits_once = refl

never_enough :
    acquire (number 3 0) [] bucket ≡ err (value_error "Requested tokens exceed bucket capacity")
unfolding acquire
never_enough = refl

granted_second :
    (acquire_loop (number 1 0) (at_time 500_000 ∷ (at_time 1_000_000 ∷ [])) bucket).1 ≡ some spent
unfolding acquire_loop try_acquire refill
granted_second = refl

acquire_loop_grants_example : IsGranted (number 1 0) bucket spent
acquire_loop_grants_example =
    acquire_loop_grants Fixed-IsFloat (number 1 0) (at_time 500_000 ∷ (at_time 1_000_000 ∷ []))
      bucket spent refl granted_second
