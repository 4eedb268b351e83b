-- ===== src/Common/Retry.antt =====
-- `RetryPolicy` and `call_with_retry` (src/common/retry.py). The function that is called changes a
-- state `S`; the sleeps are collected as the list of their lengths. `max_attempts`, an `int`, is a
-- natural number here: the check of the policy refuses 0 as it refuses every negative number. The
-- power of a float and the texts of a number and of an exception are parameters. Where Python
-- raises OverflowError for a power past the largest double, the parameter gives a float.
use suky_tradin_bot.Base.{
  ℕ, zero, suc, Bool, true, Option, none, some, String, if◌then◌else◌, ◌<>◌, List, [], ltb, ◌∷◌,
  ◌-◌,
}
use suky_tradin_bot.Common.Errors.{
  Error, Result, ok, err, ◌>>◌, ◌>>=◌, reject_if, assertion_error, retry_exhausted,
}
use suky_tradin_bot.Float.{Float, zero_f, one_f}
pub mod Outcomes

pub record RetryPolicy (F : Type 0) : Type 0 where
  pub max_attempts : ℕ
  pub initial_delay_seconds : F
  pub backoff_multiplier : F
  pub exceptions : Error → Bool

-- What a call leaves: the state of the function, the sleeps in their order, and the outcome.
pub record Run (S F T : Type 0) : Type 0 where
  pub state : S
  pub slept : List F
  pub result : Result T

abbrev pub ran : {S F T : Type 0} → S → List F → Result T → Run S F T
ran s w r = record { state = s; slept = w; result = r }

pub record Printing (F : Type 0) : Type 0 where
  pub power : F → ℕ → F
  pub count_text : ℕ → String
  pub error_text : Error → String

module _ {F : Type 0} ⦃fl : Float F⦄ where
  open fl use {lt, mul}

  -- `RetryPolicy.__post_init__`
  unfoldable pub check_retry_policy : RetryPolicy F → Result (Unit {0})
  check_retry_policy p = do
    reject_if (ltb p.max_attempts 1) "max_attempts must be >= 1"
    reject_if (lt p.initial_delay_seconds zero_f) "initial_delay_seconds must be >= 0"
    reject_if (lt p.backoff_multiplier one_f) "backoff_multiplier must be >= 1"

  module _ (python : Printing F) (p : RetryPolicy F) where
    open python use {power, count_text, error_text}

    unfoldable pub delay_for_attempt : ℕ → Result F
    delay_for_attempt attempt = do
      reject_if (ltb attempt 1) "attempt must be >= 1"
      ok (mul p.initial_delay_seconds (power p.backoff_multiplier (attempt - 1)))

    -- The sleep after a failed attempt: none after the last one.
    unfoldable pub pause : ℕ → Result (Option F)
    pause attempt =
        let delay = delay_for_attempt attempt in
        if ltb attempt p.max_attempts then (delay >>= λ d. ok (some d)) else ok none

    module _ {S T : Type 0} (func : S → S × Result T) where
      unfoldable pub after_pause : S → Result (Option F) → Run S F T → Run S F T
      after_pause s (ok none) rest = rest
      after_pause s (ok (some d)) rest = ran rest.state (d ∷ rest.slept) rest.result
      after_pause s (err e) rest = ran s [] (err e)

      unfoldable pub settle : ℕ → (S → Error → Run S F T) → S × Result T → Run S F T
      settle attempt again (s, ok a) = ran s [] (ok a)
      settle attempt again (s, err e) =
          let rest = again s e in
          if p.exceptions e then after_pause s (pause attempt) rest else ran s [] (err e)

      -- What follows the loop.
      unfoldable pub give_up : S → Option Error → Run S F T
      give_up s none = ran s [] (err assertion_error)
      give_up s (some e) = ran s [] (
          err (
            retry_exhausted (
              "All "
              <> count_text p.max_attempts
              <> " attempts failed; last error: "
              <> error_text e)))

      -- The loop with `left` attempts to come, the next of them numbered `attempt`.
      unfoldable pub attempts : (left attempt : ℕ) → S → Option Error → Run S F T
      attempts zero attempt s last = give_up s last
      attempts (suc left) attempt s last =
          settle attempt (λ s' e. attempts left (suc attempt) s' (some e)) (func s)

      unfoldable pub call_with_retry : S → Run S F T
      call_with_retry s = attempts p.max_attempts 1 s none
