-- ===== src/Strategy/Regime.antt =====
-- `RegimeMappedStrategy` and the four strategies made of it (src/strategy/strategies). The texts of
-- an int and of a `repr` are parameters.
use suky_tradin_bot.Base.{
  ◌≡◌, refl, Bool, not, String, ◌<>◌, str_eq, List, [], ◌∷◌, true, false, arith, ◌||◌, ◌||◌, ℕ, ◌*◌,
  ◌*◌,
}
use suky_tradin_bot.Base.Int.{ℤ, pos, leb_ℤ, eq_ℤ, ltb_ℤ}
use suky_tradin_bot.Common.Text.{is_nil, is_blank, is_blank-<>}
use suky_tradin_bot.Common.Time.{require_utc, same_time}
use suky_tradin_bot.Common.Errors.{
  Result, ok, construct, ◌>>◌, reject_if, raise_if, contract_violation,
}
use suky_tradin_bot.Float.Order
use suky_tradin_bot.Float.{Float, IsFloat, in_unit, IsUnit, ◌≼◌, zero_f}
use suky_tradin_bot.Hmm.State.{RegimeState, check_regime_state}
use suky_tradin_bot.Strategy.Decision.{StrategyDecision, Value, check_strategy_decision, IsChecked}
use suky_tradin_bot.Strategy.Registry.{Snapshot}

pub record RegimeMappedStrategy (F : Type 0) : Type 0 where
  pub strategy_id : String
  pub supported_regime_ids : List ℤ
  pub base_allocation : F
  pub expected_holding_period : ℤ
  pub style : String

-- `regime_id in self.supported_regime_ids`
unfoldable pub is_supported : ℤ → List ℤ → Bool
is_supported n [] = false
is_supported n (m ∷ rest) = eq_ℤ m n || is_supported n rest

-- A number of days in microseconds.
abbrev pub days : ℕ → ℤ
days n = pos (n * 86_400_000_000)

-- `DEFAULT_EXPECTED_HOLDING_PERIOD` of the four modules
abbrev pub growth_holding_period : ℤ
growth_holding_period = days 20

abbrev pub mean_reversion_holding_period : ℤ
mean_reversion_holding_period = days 3

abbrev pub defensive_holding_period : ℤ
defensive_holding_period = days 1

abbrev pub bear_holding_period : ℤ
bear_holding_period = days 5

module _ {F : Type 0} ⦃fl : Float F⦄ where
  open fl use {decimal, mul, show}

  -- `RegimeMappedStrategy.__post_init__`
  unfoldable pub check_strategy : RegimeMappedStrategy F → Result (Unit {0})
  check_strategy s = do
    reject_if (is_nil s.strategy_id) "strategy_id must not be empty"
    reject_if (not (in_unit s.base_allocation)) "base_allocation must be in [0.0, 1.0]"
    reject_if (leb_ℤ s.expected_holding_period (pos 0)) "expected_holding_period must be positive"

  -- `supports`
  unfoldable pub supports : RegimeMappedStrategy F → ℤ → Bool
  supports s regime_id = is_supported regime_id s.supported_regime_ids

  -- What the checks of a strategy and of a regime state give.
  strategy_given :
      (s : RegimeMappedStrategy F)
      → check_strategy s ≡ ok tt
      → (is_nil s.strategy_id ≡ false)
        × IsUnit s.base_allocation
        × (leb_ℤ s.expected_holding_period (pos 0) ≡ false)
  unfolding check_strategy
  strategy_given s h = (ground arith, (ground arith, ground arith), ground arith)

  state_given :
      (r : RegimeState F)
      → check_regime_state r ≡ ok tt
      → (require_utc r.timestamp "timestamp" ≡ ok tt)
        × (is_nil r.symbol ≡ false)
        × (ltb_ℤ r.regime_id (pos 0) ≡ false)
        × IsUnit r.confidence
  unfolding check_regime_state
  state_given r h = (ground arith, ground arith, ground arith, (ground arith, ground arith))

  module _ (int_text : ℤ → String) (repr : String → String) where
    -- The reasoning's f-string.
    unfoldable pub reasoning_of : RegimeMappedStrategy F → RegimeState F → F → String
    reasoning_of s r allocation =
        "regime_id="
        <> int_text r.regime_id
        <> " resolved to "
        <> s.style
        <> " strategy "
        <> repr s.strategy_id
        <> " (regime confidence "
        <> show ".3f" r.confidence
        <> "); target allocation "
        <> show ".3f" allocation
        <> " = base "
        <> show ".2f" s.base_allocation
        <> " x confidence."

    -- The `StrategyDecision(...)` that it ends with.
    unfoldable pub decision_of : RegimeMappedStrategy F → RegimeState F → StrategyDecision F
    decision_of s r = record {
      timestamp = r.timestamp;
      symbol = r.symbol;
      strategy_id = s.strategy_id;
      regime_id = r.regime_id;
      allocation = mul s.base_allocation r.confidence;
      confidence = r.confidence;
      expected_holding_period = s.expected_holding_period;
      reasoning = reasoning_of s r (mul s.base_allocation r.confidence);
      metadata =
          ("style", Value.text s.style) ∷ ("base_allocation", Value.number s.base_allocation) ∷ [];
    }

    -- `allocate`
    unfoldable pub allocate :
        {V : Type 0}
        → RegimeMappedStrategy F
        → Snapshot V
        → RegimeState F
        → Result (StrategyDecision F)
    allocate s v r = do
      raise_if (not (str_eq v.symbol r.symbol)) (contract_violation "FeatureVector symbol")
      raise_if (not (same_time v.timestamp r.timestamp))
          (contract_violation "FeatureVector timestamp")
      construct check_strategy_decision (decision_of s r)

    reasoning_given :
        (s : RegimeMappedStrategy F) (r : RegimeState F) (allocation : F)
        → is_blank (reasoning_of s r allocation) ≡ false
    unfolding reasoning_of is_blank
    reasoning_given s r allocation = simp is_blank-<>

    -- The decision of `allocate` passes its checks.
    decided :
        (s : RegimeMappedStrategy F) (r : RegimeState F)
        → is_nil s.strategy_id ≡ false
        → leb_ℤ s.expected_holding_period (pos 0) ≡ false
        → require_utc r.timestamp "timestamp" ≡ ok tt
        → is_nil r.symbol ≡ false
        → ltb_ℤ r.regime_id (pos 0) ≡ false
        → IsUnit r.confidence
        → IsUnit (mul s.base_allocation r.confidence)
        → IsChecked (decision_of s r)
    unfolding check_strategy_decision decision_of
    decided s r given positive utc symbol regime (c0, c1) (a0, a1) =
        rw
          (
            utc,
            symbol,
            given,
            regime,
            a0,
            a1,
            c0,
            c1,
            positive,
            reasoning_given s r (mul s.base_allocation r.confidence),
          )
          refl

    -- A checked strategy answers every checked regime state that has the symbol and the time of the
    -- feature vector, with the regime's confidence and an allocation between zero and its base.
    pub allocate_answers :
        IsFloat F
        → {V : Type 0} (s : RegimeMappedStrategy F) (v : Snapshot V) (r : RegimeState F)
        → check_strategy s ≡ ok tt
        → check_regime_state r ≡ ok tt
        → str_eq v.symbol r.symbol ≡ true
        → same_time v.timestamp r.timestamp ≡ true
        → (d : StrategyDecision F) × (allocate s v r ≡ ok d)
          × IsChecked d
          × (d.confidence ≡ r.confidence)
          × (zero_f ≼ d.allocation)
          × (d.allocation ≼ s.base_allocation)
    unfolding allocate decision_of
    allocate_answers laws s v r cs cr same now =
        let (given, unit, positive) = strategy_given s cs in
        let (utc, symbol, regime, conf) = state_given r cr in
        let (low, high) = Order.mul_unit laws s.base_allocation r.confidence unit conf in
        let allocated = Order.IsUnit-of_le laws _ _ low high unit in
        let checked = decided s r given positive utc symbol regime conf allocated in
        (decision_of s r, rw (allocate, same, now, checked) refl, checked, refl, low, high)

  -- The defaults of `create_growth_strategy`
  abbrev pub growth_base_allocation : F
  growth_base_allocation = decimal 1 0

  unfoldable pub create_growth_strategy : String → List ℤ → F → ℤ → Result (RegimeMappedStrategy F)
  create_growth_strategy strategy_id supported_regime_ids base_allocation expected_holding_period =
      construct check_strategy (record {
        strategy_id = strategy_id;
        supported_regime_ids = supported_regime_ids;
        base_allocation = base_allocation;
        expected_holding_period = expected_holding_period;
        style = "growth";
      })

  -- The defaults of `create_mean_reversion_strategy`
  abbrev pub mean_reversion_base_allocation : F
  mean_reversion_base_allocation = decimal 5 1

  unfoldable pub create_mean_reversion_strategy :
      String → List ℤ → F → ℤ → Result (RegimeMappedStrategy F)
  create_mean_reversion_strategy strategy_id supported_regime_ids base_allocation
        expected_holding_period =
      construct check_strategy (record {
        strategy_id = strategy_id;
        supported_regime_ids = supported_regime_ids;
        base_allocation = base_allocation;
        expected_holding_period = expected_holding_period;
        style = "mean_reversion";
      })

  -- The defaults of `create_defensive_strategy`
  abbrev pub defensive_base_allocation : F
  defensive_base_allocation = decimal 1 1

  unfoldable pub create_defensive_strategy :
      String → List ℤ → F → ℤ → Result (RegimeMappedStrategy F)
  create_defensive_strategy strategy_id supported_regime_ids base_allocation
        expected_holding_period =
      construct check_strategy (record {
        strategy_id = strategy_id;
        supported_regime_ids = supported_regime_ids;
        base_allocation = base_allocation;
        expected_holding_period = expected_holding_period;
        style = "defensive";
      })

  -- The defaults of `create_bear_strategy`
  abbrev pub bear_base_allocation : F
  bear_base_allocation = decimal 0 0

  unfoldable pub create_bear_strategy : String → List ℤ → F → ℤ → Result (RegimeMappedStrategy F)
  create_bear_strategy strategy_id supported_regime_ids base_allocation expected_holding_period =
      construct check_strategy (record {
        strategy_id = strategy_id;
        supported_regime_ids = supported_regime_ids;
        base_allocation = base_allocation;
        expected_holding_period = expected_holding_period;
        style = "bear";
      })
