-- ===== src/App/Feed.antt =====
-- `MarketDataLoop._poll_symbol` (src/app/runtime.py). The provider's answer is a parameter, and so
-- is the callback with the state `S` that it changes. The loop of `start` polls the symbols in turn
-- until it is stopped; here the polls are a sequence.
use suky_tradin_bot.Base.Int.{pos}
use suky_tradin_bot.Base.{
  Bool, true, false, String, Option, none, some, List, [], ◌∷◌, if◌then◌else◌,
}
use suky_tradin_bot.Common.Dict.{Dict, lookup, insert}
use suky_tradin_bot.Common.Errors.{Error, Result, ok, err}
use suky_tradin_bot.Common.Time.{Datetime, earlier, aware}
use suky_tradin_bot.Risk.Portfolio.{keep}
use suky_tradin_bot.MarketData.Models.{Bar}

-- The subclasses of `AppError`; the others are Python's own exceptions.
unfoldable pub is_app_error : Error → Bool
is_app_error (Error.value_error _) = false
is_app_error (Error.not_implemented _) = false
is_app_error Error.assertion_error = false
is_app_error (Error.key_error _) = false
is_app_error (Error.type_error _) = false
is_app_error _ = true

-- `_EPOCH`
abbrev pub epoch : Datetime
epoch = aware (pos 0) 0

-- `last_seen.get(symbol, _EPOCH)`
unfoldable pub seen_of : Dict Datetime → String → Datetime
seen_of d symbol = elim (lookup symbol d) [ none ↦ epoch | some t ↦ t ]

module _ {F : Type 0} where
  -- `[bar for bar in bars if bar.timestamp > last_seen]`
  unfoldable pub newer : Datetime → List (Bar F) → List (Bar F)
  newer last bars = keep (λ b. earlier last b.timestamp) bars

  -- `new_bars[-1].timestamp`, or what there was for no new bars.
  unfoldable pub last_time : Datetime → List (Bar F) → Datetime
  last_time t [] = t
  last_time t (b ∷ bars) = last_time b.timestamp bars

  -- `if new_bars: self._last_seen[symbol] = new_bars[-1].timestamp`
  unfoldable pub remember : String → List (Bar F) → Dict Datetime → Dict Datetime
  remember symbol [] d = d
  remember symbol (b ∷ bars) d = insert symbol (last_time b.timestamp bars) d

-- `if self._on_bar is not None`: whatever the callback raises is logged.
unfoldable pub call_back :
    {F S : Type 0} → Option (Bar F → S → S × Result (Unit {0})) → Bar F → S → S
call_back none b s = s
call_back (some call) b s = (call b s).0

module _ {F S : Type 0} (on_bar : Option (Bar F → S → S × Result (Unit {0}))) where
  -- The calls of `on_bar`.
  unfoldable pub hand_on : List (Bar F) → S → S
  hand_on [] s = s
  hand_on (b ∷ bars) s = hand_on bars (call_back on_bar b s)

  -- `_poll_symbol`, on what `get_bars` answers.
  unfoldable pub poll_symbol :
      String → Result (List (Bar F)) → Dict Datetime × S → Dict Datetime × Result S
  poll_symbol symbol (err e) (d, s) = (d, if is_app_error e then ok s else err e)
  poll_symbol symbol (ok bars) (d, s) =
      let new = newer (seen_of d symbol) bars in (remember symbol new d, ok (hand_on new s))
