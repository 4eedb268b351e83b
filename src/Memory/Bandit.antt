-- ===== src/Memory/Bandit.antt =====
-- The Thompson-sampling bandit (src/memory/bandit.py, src/memory/config.py) and `MemoryService`
-- (src/memory/service.py). `Random.betavariate`, the text of an `int` and `round` are parameters.
use suky_tradin_bot.Base.{Bool, String, ◌<>◌, [], ◌∷◌, none, some, if◌then◌else◌}
use suky_tradin_bot.Base.Int.{ℤ}
use suky_tradin_bot.Common.Text.{is_nil}
use suky_tradin_bot.Common.Time.{Datetime}
use suky_tradin_bot.Common.Dict.{Dict, lookup, insert}
use suky_tradin_bot.Common.Errors.{Result, ok, construct, ◌>>=◌, ◌>>◌, reject_if}
use suky_tradin_bot.Float.{Float, zero_f, one_f, of_int, max_f, min_f}
use suky_tradin_bot.Strategy.Decision.{Value}
use suky_tradin_bot.Memory.Experience.{ExperienceRecord}
use suky_tradin_bot.Memory.Decision.{LearningDecision, check_learning_decision}
use suky_tradin_bot.Memory.Store.{ExperienceStore, append}

-- `MemoryConfig`
pub record MemoryConfig (F : Type 0) : Type 0 where
  pub prior_alpha : F
  pub prior_beta : F
  pub confidence_smoothing : F
  pub model_version : String

-- `BetaArm`
pub record BetaArm (F : Type 0) : Type 0 where
  pub prior_alpha : F
  pub prior_beta : F
  pub alpha : F
  pub beta : F

-- `ThompsonSamplingPolicy`
pub record BanditPolicy (F : Type 0) : Type 0 where
  pub config : MemoryConfig F
  pub arms : Dict (BetaArm F)

-- What the code calls outside of itself: a random state with its beta variate, the text of an int,
-- and `round`, which raises for a float that is not finite.
pub record Sampling (F : Type 0) : Type 1 where
  pub Random : Type 0
  pub betavariate : Random → F → F → F × Random
  pub int_text : ℤ → String
  pub round : F → Result ℤ

-- What `recommend` is asked.
pub record Request (F : Type 0) : Type 0 where
  pub timestamp : Datetime
  pub symbol : String
  pub strategy_id : String
  pub regime_id : ℤ
  pub production_allocation : F

module _ {F : Type 0} ⦃fl : Float F⦄ where
  open fl use {add, sub, mul, div, le, show}

  -- `MemoryConfig.__post_init__`
  unfoldable pub check_memory_config : MemoryConfig F → Result (Unit {0})
  check_memory_config c = do
    reject_if (le c.prior_alpha zero_f) "prior_alpha must be > 0"
    reject_if (le c.prior_beta zero_f) "prior_beta must be > 0"
    reject_if (le c.confidence_smoothing zero_f) "confidence_smoothing must be > 0"
    reject_if (is_nil c.model_version) "model_version must not be empty"

  -- `BetaArm(prior_alpha=..., prior_beta=...)`
  unfoldable pub beta_arm : F → F → Result (BetaArm F)
  beta_arm a b = do
    reject_if (le a zero_f) "prior_alpha must be > 0"
    reject_if (le b zero_f) "prior_beta must be > 0"
    ok (record { prior_alpha = a; prior_beta = b; alpha = a; beta = b })

  -- `BetaArm.update`
  unfoldable pub update_arm : Bool → BetaArm F → BetaArm F
  update_arm won a =
      if won then record a { alpha = add a.alpha one_f } else record a { beta = add a.beta one_f }

  -- `BetaArm.posterior_mean`
  unfoldable pub posterior_mean : BetaArm F → F
  posterior_mean a = div a.alpha (add a.alpha a.beta)

  module _ (x : Sampling F) where
    -- `BetaArm.sample_size`
    unfoldable pub sample_size : BetaArm F → Result ℤ
    sample_size a = x.round (add (sub a.alpha a.prior_alpha) (sub a.beta a.prior_beta))

    -- `context_key`
    unfoldable pub arm_key : String → ℤ → String
    arm_key strategy_id regime_id = strategy_id <> "|" <> x.int_text regime_id

    -- `_arm_for`, with the arms that it leaves.
    unfoldable pub arm_for : BanditPolicy F → String → Result (BetaArm F × BanditPolicy F)
    arm_for p key = elim (lookup key p.arms) [
      | none ↦ beta_arm p.config.prior_alpha p.config.prior_beta >>= λ a.
          ok (a, record p { arms = insert key a p.arms })
      | some a ↦ ok (a, p)
    ]

    -- `ThompsonSamplingPolicy.update`: the arm is changed in place.
    unfoldable pub update : ExperienceRecord F → BanditPolicy F → Result (BanditPolicy F)
    update r p =
        let key = arm_key r.strategy_id r.regime_id in
        arm_for p key >>= λ found.
        ok (record p { arms = insert key (update_arm r.won found.0) found.1.arms })

    -- The rationale's f-string.
    unfoldable pub rationale_of : Request F → BetaArm F → ℤ → F → String
    rationale_of q a n weight =
        "context (strategy="
        <> q.strategy_id
        <> ", regime="
        <> x.int_text q.regime_id
        <> ") has "
        <> show ".0f" (sub a.alpha a.prior_alpha)
        <> " win(s) / "
        <> show ".0f" (sub a.beta a.prior_beta)
        <> " loss(es) across "
        <> x.int_text n
        <> " sample(s); posterior mean "
        <> show ".3f" (posterior_mean a)
        <> ", sampled weight "
        <> show ".3f" weight

    -- The decision about an arm of `n` samples with a sampled weight.
    unfoldable pub recommended : MemoryConfig F → Request F → BetaArm F → ℤ → F → LearningDecision F
    recommended c q a n weight = record {
      timestamp = q.timestamp;
      symbol = q.symbol;
      strategy_id = q.strategy_id;
      regime_id = q.regime_id;
      production_allocation = q.production_allocation;
      recommended_allocation = min_f one_f (max_f zero_f (mul q.production_allocation weight));
      confidence = div (of_int n) (add (of_int n) c.confidence_smoothing);
      sample_size = n;
      rationale = rationale_of q a n weight;
      model_version = c.model_version;
      metadata =
          ("posterior_alpha", Value.number a.alpha)
          ∷ ("posterior_beta", Value.number a.beta)
          ∷ ("sampled_weight", Value.number weight)
          ∷ [];
    }

    -- `ThompsonSamplingPolicy.recommend`, with the arms and the random state that it leaves.
    unfoldable pub recommend :
        BanditPolicy F
        → Request F
        → x.Random
        → Result (LearningDecision F × BanditPolicy F × x.Random)
    recommend p q rng = do
      found ← arm_for p (arm_key q.strategy_id q.regime_id)
      let a = found.0
      let drawn = x.betavariate rng a.alpha a.beta
      n ← sample_size a
      d ← construct check_learning_decision (recommended p.config q a n drawn.0)
      ok (d, found.1, drawn.1)

    -- `MemoryService.record_experience`: the store keeps the record before the policy learns.
    unfoldable pub record_experience :
        ExperienceRecord F
        → ExperienceStore F × BanditPolicy F
        → ExperienceStore F × Result (BanditPolicy F)
    record_experience r s = (append r s.0, update r s.1)
