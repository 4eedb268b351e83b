-- ===== src/Tests/Broker.antt =====
-- Calls with retries at a broker that refuses the first two submissions, or every one.
use suky_tradin_bot.Base.{◌≡◌, refl, ℕ, suc, true, false, none, some, [], arith, if◌then◌else◌, ltb}
use suky_tradin_bot.Base.Int.{pos}
use suky_tradin_bot.Float.Fixed.{Fixed, fixed_float}
use suky_tradin_bot.Common.Errors.{Result, ok, err, transient_broker, retry_exhausted}
use suky_tradin_bot.Common.Retry.{Printing, ran, RetryPolicy, call_with_retry}
use suky_tradin_bot.Common.Retry.Outcomes.{
  Failing, untried, failed, backoff, call_with_retry_settles, call_with_retry_exhausts,
}
use suky_tradin_bot.Execution.Retry.{
  BrokerSubmissionResult, default_broker_retry_policy, submit_with_retry,
}
use suky_tradin_bot.Execution.Submission.{
  Refused, fresh, refused, submit_with_retry_accepts, submit_with_retry_gives_up,
}
use suky_tradin_bot.Execution.Order.{OrderIntent, buy, market, day}
use suky_tradin_bot.Risk.Service.{decision_of}
use suky_tradin_bot.Risk.Decision.{approved}
use suky_tradin_bot.Tests.Data.{number, quarter, noon}

abbrev python : Printing Fixed
python = record { power = λ x n. x; count_text = λ _. "3"; error_text = λ _. "busy" }

abbrev intent : OrderIntent Fixed
intent = record {
  timestamp = noon;
  symbol = "SPY";
  side = buy;
  quantity = pos 1;
  order_type = market;
  limit_price = none;
  time_in_force = day;
  reference_price = number 400 0;
  stop_loss = some (number 395 0);
  take_profit = none;
  idempotency_key = "k";
  reasoning = "r";
  execution_reference = decision_of quarter true (approved, number 25 2) [];
  metadata = [];
}

abbrev refusal : BrokerSubmissionResult
refusal = record { submitted = false; broker_order_id = none; error = some "busy" }

abbrev acceptance : BrokerSubmissionResult
acceptance = record { submitted = true; broker_order_id = some "o1"; error = none }

-- The state counts the calls.
abbrev slow : OrderIntent Fixed → ℕ → ℕ × Result BrokerSubmissionResult
slow i n = (suc n, ok (if ltb n 2 then refusal else acceptance))

abbrev dead : OrderIntent Fixed → ℕ → ℕ × Result BrokerSubmissionResult
dead i n = (suc n, ok refusal)

slow_twice : Refused slow intent 2 0 2
slow_twice = refused refl refl (refused refl refl fresh)

dead_twice : Refused dead intent 2 0 2
dead_twice = refused refl refl (refused refl refl fresh)

submit_with_retry_accepts_example :
    submit_with_retry python slow intent none 0
    ≡ ran 3 (backoff python default_broker_retry_policy 1 2) (ok acceptance)
submit_with_retry_accepts_example =
    submit_with_retry_accepts python slow intent none 2 (λ _. refl) slow_twice (omega arith) refl
      refl

submit_with_retry_gives_up_example :
    submit_with_retry python dead intent none 0
    ≡ ran 3 (backoff python default_broker_retry_policy 1 2) (
        ok (record {
          submitted = false;
          broker_order_id = none;
          error = some ("All 3 attempts failed; last error: busy");
        }))
submit_with_retry_gives_up_example =
    submit_with_retry_gives_up python dead intent none 2 (λ _. refl) dead_twice refl refl refl

-- A function that fails at 0 and at 1, by an error that the policy retries.
abbrev flaky : ℕ → ℕ × Result ℕ
flaky n = (suc n, if ltb n 2 then err (transient_broker "busy") else ok n)

flaky_twice :
    Failing
      (default_broker_retry_policy {F = Fixed})
      flaky
      2
      0
      none
      2
      (some (transient_broker "busy"))
flaky_twice = failed refl refl (failed refl refl untried)

call_with_retry_settles_example :
    call_with_retry python default_broker_retry_policy flaky 0
    ≡ ran 3 (backoff python default_broker_retry_policy 1 2) (ok 2)
call_with_retry_settles_example =
    call_with_retry_settles python default_broker_retry_policy flaky 2 flaky_twice (omega arith)
      (λ e h. cc)

abbrev twice : RetryPolicy Fixed
twice = record default_broker_retry_policy { max_attempts = 2 }

flaky_at_first : Failing twice flaky 1 0 none 1 (some (transient_broker "busy"))
flaky_at_first = failed refl refl untried

call_with_retry_exhausts_example :
    call_with_retry python twice flaky 0
    ≡ ran 2
        (backoff python twice 1 1)
        (err (retry_exhausted ("All 3 attempts failed; last error: busy")))
call_with_retry_exhausts_example =
    call_with_retry_exhausts python twice flaky 1 flaky_at_first refl refl refl
