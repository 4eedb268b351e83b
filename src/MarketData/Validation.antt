-- ===== src/MarketData/Validation.antt =====
-- The validation of bars (src/market_data/validation.py).
use suky_tradin_bot.Base.{
  Bool, true, false, not, ◌||◌, ℕ, zero, suc, ◌+◌, ◌*◌, ◌/◌, ◌%◌, ltb, Option, none, some, List, [],
  ◌∷◌, map, is_empty, if◌then◌else◌, ◌&&◌, String, ◌-◌,
}
use suky_tradin_bot.Common.Time.{Datetime, naive, aware, earlier, same_time, is_naive}
use suky_tradin_bot.Base.Int.{pos, negsuc}
use suky_tradin_bot.Common.Errors.{
  Result, ok, err, construct, ◌>>=◌, assertion_error, type_error, overflow_error,
}
use suky_tradin_bot.Float.{Float}
use suky_tradin_bot.Risk.Portfolio.{keep}
use suky_tradin_bot.MarketData.Models.{
  Bar, Timeframe, min_1, min_5, min_15, hour_1, day_1, CorporateAction, is_split, check_bar,
}

-- `timestamp in seen`
unfoldable pub is_in : Datetime → List Datetime → Bool
is_in t [] = false
is_in t (s ∷ seen) = same_time s t || is_in t seen

-- The microseconds that a datetime counts, and `t + delta`.
abbrev pub micros : Datetime → ℕ
micros (naive a) = a
micros (aware _ a) = a

abbrev pub shift : Datetime → ℕ → Datetime
shift (naive a) d = naive (a + d)
shift (aware o a) d = aware o (a + d)

-- `_INTRADAY_DELTAS`, and the day that `Timeframe.DAY_1` steps by.
abbrev pub minute : ℕ
minute = 60_000_000

unfoldable pub delta : Timeframe → ℕ
delta min_1 = minute
delta min_5 = 5 * minute
delta min_15 = 15 * minute
delta hour_1 = 60 * minute
delta day_1 = 1440 * minute

abbrev whole_day : ℕ
whole_day = 1440 * minute

-- The microseconds that a datetime's own clock shows, its offset included, since Thursday the 25th
-- of December 1969. (That is a week before 1970, and an offset is less than a day.)
unfoldable pub local_micros : Datetime → ℕ
local_micros (naive a) = a + 7 * whole_day
local_micros (aware (pos offset) a) = a + 7 * whole_day + offset * 1_000_000
local_micros (aware (negsuc offset) a) = a + 7 * whole_day - suc offset * 1_000_000

-- `datetime.max` is a microsecond before: the clock shows the first of January 10000.
abbrev pub end_of_time : ℕ
end_of_time = 2_932_904 * whole_day

-- `t + delta`, which raises past `datetime.max`.
unfoldable pub advance : Datetime → ℕ → Result Datetime
advance t d =
    if ltb (local_micros t + d) end_of_time
    then ok (shift t d)
    else err (overflow_error "date value out of range")

-- `<` of a naive and an aware datetime raises.
abbrev pub mixed : Datetime → Datetime → Bool
mixed s t = if is_naive s then not (is_naive t) else is_naive t

-- `weekday()` of the date that the datetime's own clock shows. Monday is 0.
unfoldable pub weekday : Datetime → ℕ
weekday t = (local_micros t / whole_day + 3) % 7

-- What is expected of a timeframe: every step of an intraday one, and the steps from Monday to
-- Friday of a daily one.
unfoldable pub wanted : Timeframe → Datetime → Bool
wanted day_1 t = ltb (weekday t) 5
wanted _ t = true

-- The two loops of `_expected_timestamps`, on fuel. `none` is that it ran out.
unfoldable pub expected_from :
    ℕ → (Datetime → Bool) → ℕ → Datetime → Datetime → Option (Result (List Datetime))
expected_from zero wants step current end = none
expected_from (suc fuel) wants step current end = elim (mixed current end) [
  | true ↦ some (err (type_error "can't compare offset-naive and offset-aware datetimes"))
  | false ↦ elim (earlier current end) [
    | false ↦ some (ok [])
    | true ↦ elim (advance current step) [
      | err raised ↦ some (err raised)
      | ok next ↦ elim (expected_from fuel wants step next end) [
        | none ↦ none
        | some later ↦ some (later >>= λ rest. ok (if wants current then current ∷ rest else rest))
      ]
    ]
  ]
]

-- `_expected_timestamps`, with as many steps as fit and two.
unfoldable pub expected_timestamps :
    Datetime → Datetime → Timeframe → Option (Result (List Datetime))
expected_timestamps start end timeframe =
    expected_from (suc ((micros end - micros start) / delta timeframe + 1)) (wanted timeframe)
      (delta timeframe) start end

module _ {F : Type 0} where
  -- `by_timestamp[bar.timestamp] = bar`: the dict as its values in order, since every key is the
  -- timestamp of its value.
  unfoldable pub put_bar : Bar F → List (Bar F) → List (Bar F)
  put_bar b [] = b ∷ []
  put_bar b (c ∷ rest) =
      let others = put_bar b rest in
      if same_time c.timestamp b.timestamp then b ∷ rest else c ∷ others

  unfoldable pub by_timestamp : List (Bar F) → List (Bar F) → List (Bar F)
  by_timestamp [] d = d
  by_timestamp (b ∷ bars) d = by_timestamp bars (put_bar b d)

  -- `sorted(..., key=timestamp)`, which keeps equal elements in their order.
  unfoldable pub insert_bar : Bar F → List (Bar F) → List (Bar F)
  insert_bar b [] = b ∷ []
  insert_bar b (c ∷ rest) =
      let others = insert_bar b rest in
      if earlier c.timestamp b.timestamp then c ∷ others else b ∷ c ∷ rest

  unfoldable pub sorted : List (Bar F) → List (Bar F)
  sorted [] = []
  sorted (b ∷ bars) = insert_bar b (sorted bars)

  -- `deduplicate_bars`: the values in the order of their keys.
  unfoldable pub deduplicate_bars : List (Bar F) → List (Bar F)
  deduplicate_bars bars = sorted (by_timestamp bars [])

  unfoldable pub duplicates_from : List Datetime → List (Bar F) → List (Bar F)
  duplicates_from seen [] = []
  duplicates_from seen (b ∷ bars) =
      let again = duplicates_from seen bars in
      let first = duplicates_from (b.timestamp ∷ seen) bars in
      if is_in b.timestamp seen then b ∷ again else first

  -- `find_duplicate_timestamps`
  unfoldable pub find_duplicate_timestamps : List (Bar F) → List (Bar F)
  find_duplicate_timestamps bars = duplicates_from [] bars

  -- `find_missing_bars`
  unfoldable pub find_missing_bars :
      List (Bar F) → Timeframe → Datetime → Datetime → Option (Result (List Datetime))
  find_missing_bars bars timeframe start end = elim (expected_timestamps start end timeframe) [
    | none ↦ none
    | some found ↦ some (
        found >>= λ expected. ok (keep (λ t. not (is_in t (map (λ b. b.timestamp) bars))) expected))
  ]

-- `ValidationReport`
pub record ValidationReport (F : Type 0) : Type 0 where
  pub symbol : String
  pub timeframe : Timeframe
  pub missing_bar_timestamps : List Datetime
  pub duplicate_bars : List (Bar F)

module _ {F : Type 0} where
  -- `ValidationReport.is_clean`
  unfoldable pub is_clean : ValidationReport F → Bool
  is_clean r = is_empty r.missing_bar_timestamps && is_empty r.duplicate_bars

  -- `validate_bars`
  unfoldable pub validate_bars :
      List (Bar F) → String → Timeframe → Datetime → Datetime → Option (Result (ValidationReport F))
  validate_bars bars symbol timeframe start end =
      elim (find_missing_bars bars timeframe start end) [
        | none ↦ none
        | some found ↦ some (
            found >>= λ missing. ok (record {
              symbol = symbol;
              timeframe = timeframe;
              missing_bar_timestamps = missing;
              duplicate_bars = find_duplicate_timestamps bars;
            }))
      ]

module _ {F : Type 0} ⦃fl : Float F⦄ where
  open fl use {mul, div}

  -- A bar with its prices divided by the ratio and its volume multiplied.
  unfoldable pub split_bar : F → Bar F → Bar F
  split_bar ratio b = record b {
    opening = div b.opening ratio;
    high = div b.high ratio;
    low = div b.low ratio;
    close = div b.close ratio;
    volume = mul b.volume ratio;
    vwap = elim b.vwap [ none ↦ none | some v ↦ some (div v ratio) ];
  }

  -- One split on all bars: those before its ex-date are rebuilt, which checks them.
  unfoldable pub adjust : F → Datetime → List (Bar F) → Result (List (Bar F))
  adjust ratio ex_date [] = ok []
  adjust ratio ex_date (b ∷ bars) = do
    first ← (if earlier b.timestamp ex_date then construct check_bar (split_bar ratio b) else ok b)
    rest ← adjust ratio ex_date bars
    ok (first ∷ rest)

  -- `sorted(..., key=ex_date)`
  unfoldable pub insert_action :
      CorporateAction F → List (CorporateAction F) → List (CorporateAction F)
  insert_action a [] = a ∷ []
  insert_action a (c ∷ rest) =
      let others = insert_action a rest in
      if earlier c.ex_date a.ex_date then c ∷ others else a ∷ c ∷ rest

  unfoldable pub sorted_actions : List (CorporateAction F) → List (CorporateAction F)
  sorted_actions [] = []
  sorted_actions (a ∷ rest) = insert_action a (sorted_actions rest)

  unfoldable pub adjust_all : List (CorporateAction F) → List (Bar F) → Result (List (Bar F))
  adjust_all [] bars = ok bars
  adjust_all (a ∷ rest) bars = elim a.ratio [
    | none ↦ err assertion_error
    | some ratio ↦ adjust ratio a.ex_date bars >>= adjust_all rest
  ]

  -- `apply_split_adjustment`
  unfoldable pub apply_split_adjustment :
      List (Bar F) → List (CorporateAction F) → Result (List (Bar F))
  apply_split_adjustment bars actions =
      adjust_all (sorted_actions (keep (λ a. is_split a.action_type) actions)) bars
