-- ===== src/App/Delivery.antt =====
-- What the polls of src/app/runtime.py hand on to the pipeline.
use suky_tradin_bot.Common.Dict.{Dict}
use suky_tradin_bot.MarketData.Models.{Bar}
use suky_tradin_bot.Common.Time.{Datetime, earlier}
use suky_tradin_bot.Base.{String, Option, List, All, ◌∷◌, [], ◌≡◌, true}
use suky_tradin_bot.Common.Errors.{Result, err, ok}
use suky_tradin_bot.App.Feed.{is_app_error, seen_of, last_time, hand_on, poll_symbol}
use suky_tradin_bot.MarketData.Dedup.{IsAscending}

-- Every bar is after a time.
abbrev pub IsAfter : {F : Type 0} → Datetime → List (Bar F) → Type 0
IsAfter t bars = All (λ b. earlier t b.timestamp ≡ true) bars

-- The provider answers with bars in ascending order of time, or raises an `AppError`.
abbrev pub IsServed : {F : Type 0} → Result (List (Bar F)) → Type 0
IsServed (err e) = is_app_error e ≡ true
IsServed (ok bars) = IsAscending bars

module _ {F S : Type 0} (on_bar : Option (Bar F → S → S × Result (Unit {0}))) where
  -- One poll of a symbol after the other; an exception that is not an `AppError` ends them.
  unfoldable pub polls :
      String → List (Result (List (Bar F))) → Dict Datetime × S → Dict Datetime × Result S
  polls symbol [] (d, s) = (d, ok s)
  polls symbol (answer ∷ rest) (d, s) =
      let (e, r) = poll_symbol on_bar symbol answer (d, s) in
      elim r [ err x ↦ (e, err x) | ok u ↦ polls symbol rest (e, u) ]

  -- The bars that `polls` handed on, with what it leaves.
  abbrev pub IsDelivered :
      String → Dict Datetime → S → List (Bar F) → Dict Datetime × Result S → Type 0
  IsDelivered symbol d s handed r =
      (r.1 ≡ ok (hand_on on_bar handed s))
      × (seen_of r.0 symbol ≡ last_time (seen_of d symbol) handed)
      × IsAfter (seen_of d symbol) handed
      × IsAscending handed
