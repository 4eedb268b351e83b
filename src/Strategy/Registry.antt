-- ===== src/Strategy/Registry.antt =====
-- `StrategyRegistry` (src/strategy/registry.py) and `StrategyService.decide`
-- (src/strategy/service.py). The feature vector and the regime state are types of other packages;
-- what `decide` reads of them is in `Snapshot`.
use suky_tradin_bot.Base.{
  ◌≡◌, arith, Bool, true, not, Option, none, some, is_some, String, str_eq, List, [], ◌∷◌, map, All,
  Bool-cases, inl, inr,
}
use suky_tradin_bot.Base.Int.{ℤ}
use suky_tradin_bot.Common.Errors.{
  Result, ok, err, ◌>>◌, ◌>>=◌, reject_if, raise_if, strategy_not_found, ambiguous_strategy,
  unsupported_regime, contract_violation,
}
use suky_tradin_bot.Common.Dict.{Dict, lookup, insert}
use suky_tradin_bot.Common.Time.{Datetime, same_time}
use suky_tradin_bot.Risk.Portfolio.{keep}
use suky_tradin_bot.Strategy.Decision.{StrategyDecision}

-- The symbol and the time that a feature vector or a regime state carries, beside the rest of it.
pub record Snapshot (A : Type 0) : Type 0 where
  pub symbol : String
  pub timestamp : Datetime
  pub content : A

-- The protocol `Strategy` (src/strategy/interfaces.py).
pub record Strategy (V R F : Type 0) : Type 0 where
  pub strategy_id : String
  pub supports : ℤ → Bool
  pub allocate : Snapshot V → Snapshot R → Result (StrategyDecision F)

module _ {V R F : Type 0} where
  unfoldable pub register : Strategy V R F → Dict (Strategy V R F) → Result (Dict (Strategy V R F))
  register s registry = do
    reject_if (is_some (lookup s.strategy_id registry)) "strategy_id is already registered"
    ok (insert s.strategy_id s registry)

  unfoldable pub get : String → Dict (Strategy V R F) → Result (Strategy V R F)
  get strategy_id registry = elim (lookup strategy_id registry) [
    | none ↦ err (strategy_not_found "no strategy registered")
    | some s ↦ ok s
  ]

  -- `[s for s in self._strategies.values() if s.supports(regime_id)]`
  unfoldable pub matches : ℤ → Dict (Strategy V R F) → List (Strategy V R F)
  matches regime_id registry = keep (λ s. s.supports regime_id) (map (λ e. e.1) registry)

  unfoldable pub select :
      List (Strategy V R F) → Option String → Dict (Strategy V R F) → Result (Strategy V R F)
  select (s ∷ _ ∷ _) default_strategy_id registry = err ambiguous_strategy
  select (s ∷ []) default_strategy_id registry = ok s
  select [] (some strategy_id) registry = get strategy_id registry
  select [] none registry = err unsupported_regime

  unfoldable pub resolve : ℤ → Option String → Dict (Strategy V R F) → Result (Strategy V R F)
  resolve regime_id default_strategy_id registry =
      select (matches regime_id registry) default_strategy_id registry

  -- `StrategyService.decide`; `regime_id` is a field of the regime state.
  unfoldable pub decide :
      (R → ℤ)
      → Option String
      → Dict (Strategy V R F)
      → Snapshot V
      → Snapshot R
      → Result (StrategyDecision F)
  decide regime_id default_strategy_id registry v r = do
    raise_if (not (str_eq v.symbol r.symbol)) (contract_violation "FeatureVector symbol")
    raise_if (not (same_time v.timestamp r.timestamp))
        (contract_violation "FeatureVector timestamp")
    s ← resolve (regime_id r.content) default_strategy_id registry
    s.allocate v r

  keep-All :
      (test : Strategy V R F → Bool) (xs : List (Strategy V R F))
      → All (λ x. test x ≡ true) (keep test xs)
  keep-All test [] = tt
  keep-All test (x ∷ xs) = elim (Bool-cases (test x)) [
    | inl p ↦ rw p (p, keep-All test xs)
    | inr p ↦ rw p (keep-All test xs)
  ]

  -- Without a default, the strategy that a regime resolves to supports the regime, and no other
  -- registered strategy does.
  pub resolve_alone :
      (regime_id : ℤ) (registry : Dict (Strategy V R F)) (s : Strategy V R F)
      → resolve regime_id none registry ≡ ok s
      → (matches regime_id registry ≡ s ∷ []) × (s.supports regime_id ≡ true)
  unfolding resolve select matches
  resolve_alone regime_id registry s h =
      let alone = selected (matches regime_id registry) h in
      (alone, supported _ alone (keep-All (λ x. x.supports regime_id) (map (λ e. e.1) registry)))
    where
      supported :
          (found : List (Strategy V R F))
          → found ≡ s ∷ []
          → All (λ x. x.supports regime_id ≡ true) found
          → s.supports regime_id ≡ true
      supported found q h = (rw q at h).0

      selected :
          (found : List (Strategy V R F)) → select found none registry ≡ ok s → found ≡ s ∷ []
      selected [] k = ground arith
      selected (x ∷ []) k = ground arith
      selected (x ∷ y ∷ found) k = ground arith
