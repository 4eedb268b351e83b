-- ===== src/Tests/Execution.antt =====
-- The execution layer's and the runtime's theorems at concrete inputs.
use suky_tradin_bot.Common.Time.{require_utc}
use suky_tradin_bot.Base.{◌≡◌, refl, true, false, none, some, [], ◌∷◌}
use suky_tradin_bot.Base.Int.{ℤ, pos, ◌≤ℤ◌}
use suky_tradin_bot.Risk.Exposure.{held_in_ticker}
use suky_tradin_bot.Base.{◌⊎◌, ◌≡◌}
use suky_tradin_bot.Float.{zero_f, sum_from}
use suky_tradin_bot.Float.Fixed.{Fixed, fixed_float}
use suky_tradin_bot.Common.Errors.{ok}
use suky_tradin_bot.Risk.Portfolio.{ticker_value}
use suky_tradin_bot.Risk.Service.{decision_of}
use suky_tradin_bot.Risk.Decision.{ExecutionDecision, reduced, approved}
use suky_tradin_bot.Execution.Order.{OrderIntent, ExecutionContext, FeatureSnapshot, buy, sell, day}
use suky_tradin_bot.Execution.Router.{route, delta_value, gap, route_sells, route_sell, route_buy}
use suky_tradin_bot.Execution.Builder.{Printer, OrderBuilder, build}
use suky_tradin_bot.Execution.Protection.{build_answers, build-Sound, Sound}
use suky_tradin_bot.Tests.Data.{quarter, number, calm, noon}

-- An approved target of 25 percent against a position of 10 percent, and one of 5 percent.
abbrev more : ExecutionDecision Fixed
more = decision_of quarter true (approved, number 25 2) []

abbrev less : ExecutionDecision Fixed
less = decision_of quarter true (reduced, number 5 2) ("cut" ∷ [])

abbrev price : Fixed
price = number 400 0

buy_37 : route more calm price ≡ ok (some (record { side = buy; quantity = pos 37 }))
unfolding route delta_value ticker_value sum_from route_buy
buy_37 = refl

sell_12 : route less calm price ≡ ok (some (record { side = sell; quantity = pos 12 }))
unfolding route delta_value ticker_value sum_from route_sell
sell_12 = refl

route_sells_example :
    (n : ℤ) × (m : ℤ) × (fixed_float.floor (fixed_float.div (fixed_float.abs (gap less calm)) price)
      ≡ some n)
    × (fixed_float.floor (fixed_float.div (held_in_ticker "SPY" calm) price) ≡ some m)
    × (pos 1 ≤ℤ pos 12)
    × (pos 12 ≤ℤ n)
    × (pos 12 ≤ℤ m)
    × ((pos 12 ≡ n) ⊎ (pos 12 ≡ m))
    × (fixed_float.lt zero_f (gap less calm) ≡ false)
route_sells_example = route_sells less calm price sell_12 refl

abbrev print : Printer
print = record { int_text = λ _. "n"; isoformat = λ _. "noon"; repr = λ s. s }

abbrev builder : OrderBuilder Fixed
builder = record {
  stop_loss_policy = record {
    name = "atr_stop";
    compute_stop_loss = λ c s. fixed_float.sub c.reference_price s.atr_14;
  };
  time_in_force = day;
}

abbrev context : ExecutionContext Fixed
context = record {
  symbol = "SPY";
  timestamp = noon;
  reference_price = price;
  bid = none;
  ask = none;
  spread = none;
  tick_size = number 1 2;
  price_source = "bar_close";
}

abbrev features : FeatureSnapshot Fixed
features = record {
  symbol = "SPY";
  timestamp = noon;
  atr_14 = number 5 0;
  realized_volatility_20 = number 2 1;
}

in_utc : require_utc noon "timestamp" ≡ ok tt
unfolding require_utc
in_utc = refl

build_answers_example :
    (i : OrderIntent Fixed) × (build print builder more calm context features ≡ ok (some i))
    × (i.side ≡ buy)
    × (i.quantity ≡ pos 37)
    × (i.execution_reference ≡ more)
build_answers_example =
    build_answers print builder more calm context features
      (record { side = buy; quantity = pos 37 }) buy_37 refl refl refl in_utc refl (λ _. refl)

bought : (i : OrderIntent Fixed) × (build print builder more calm context features ≡ ok (some i))
bought =
    let (i, built, _, _, _) =
      build_answers print builder more calm context features
        (record { side = buy; quantity = pos 37 }) buy_37 refl refl refl in_utc refl (λ _. refl) in
    (i, built)

build-Sound_example : Sound print builder more calm context features bought.0
build-Sound_example = build-Sound print builder more calm context features bought.1
