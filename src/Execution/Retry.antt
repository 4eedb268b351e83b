-- ===== src/Execution/Retry.antt =====
-- `submit_with_retry` (src/execution/retry.py). The broker adapter is a parameter: a call of its
-- `submit_order` changes the state `S` of the broker and of the connection.
use suky_tradin_bot.Base.{Bool, true, false, not, Option, none, some, String, if◌then◌else◌}
use suky_tradin_bot.Common.Errors.{
  Error, Result, ok, err, ◌>>◌, ◌>>=◌, raise_if, transient_broker, retry_exhausted,
}
use suky_tradin_bot.Common.Text.{is_nil}
use suky_tradin_bot.Common.Retry.{RetryPolicy, Printing, Run, ran, call_with_retry}
use suky_tradin_bot.Execution.Order.{OrderIntent}
use suky_tradin_bot.Float.{Float}

-- `BrokerSubmissionResult` (src/execution/broker_adapter.py)
pub record BrokerSubmissionResult : Type 0 where
  pub submitted : Bool
  pub broker_order_id : Option String
  pub error : Option String

abbrev pub is_transient : Error → Bool
is_transient (transient_broker text) = true
is_transient _ = false

-- `result.error or "broker submission failed"`
abbrev pub reason : Option String → String
reason none = "broker submission failed"
reason (some text) = if is_nil text then "broker submission failed" else text

-- The inner function `_attempt`, after its call of the adapter.
unfoldable pub accept : BrokerSubmissionResult → Result BrokerSubmissionResult
accept r = do raise_if (not r.submitted) (transient_broker (reason r.error)); ok r

-- The `except RetryExhaustedError` of `submit_with_retry`.
unfoldable pub answer : Result BrokerSubmissionResult → Result BrokerSubmissionResult
answer (err (retry_exhausted text)) =
    ok (record { submitted = false; broker_order_id = none; error = some text })
answer r = r

unfoldable pub attempt :
    {F S : Type 0}
    → (OrderIntent F → S → S × Result BrokerSubmissionResult)
    → OrderIntent F
    → S
    → S × Result BrokerSubmissionResult
attempt submit_order intent s = let x = submit_order intent s in (x.0, x.1 >>= accept)

module _ {F : Type 0} ⦃fl : Float F⦄ where
  open fl use {decimal}

  -- `DEFAULT_BROKER_RETRY_POLICY`
  abbrev pub default_broker_retry_policy : RetryPolicy F
  default_broker_retry_policy = record {
    max_attempts = 3;
    initial_delay_seconds = decimal 5 1;
    backoff_multiplier = decimal 20 1;
    exceptions = is_transient;
  }

  -- `policy or DEFAULT_BROKER_RETRY_POLICY`
  abbrev pub active_policy : Option (RetryPolicy F) → RetryPolicy F
  active_policy none = default_broker_retry_policy
  active_policy (some p) = p

  module _ (python : Printing F) {S : Type 0}
      (submit_order : OrderIntent F → S → S × Result BrokerSubmissionResult) where
    unfoldable pub submit_with_retry :
        OrderIntent F → Option (RetryPolicy F) → S → Run S F BrokerSubmissionResult
    submit_with_retry intent policy s =
        let r = call_with_retry python (active_policy policy) (attempt submit_order intent) s in
        ran r.state r.slept (answer r.result)
