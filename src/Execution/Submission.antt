-- ===== src/Execution/Submission.antt =====
-- What `submit_with_retry` returns when the broker refuses an order some times.
use suky_tradin_bot.Base.{
  ◌≡◌, refl, ℕ, suc, ◌<◌, true, false, Option, none, some, String, ◌<>◌, ap, ◌∙◌,
}
use suky_tradin_bot.Common.Errors.{Error, Result, ok, err, transient_broker}
use suky_tradin_bot.Common.Retry.{RetryPolicy, Printing, ran, call_with_retry}
use suky_tradin_bot.Common.Retry.Outcomes.{
  Failing, untried, failed, backoff, call_with_retry_settles, call_with_retry_exhausts,
}
use suky_tradin_bot.Execution.Retry.{
  BrokerSubmissionResult, reason, accept, answer, active_policy, attempt, submit_with_retry,
}
use suky_tradin_bot.Execution.Order.{OrderIntent}
use suky_tradin_bot.Float.{Float}

-- The broker refuses `n` submissions in a row and is then in the state `t`.
pub data Refused {F S : Type 0}
    (submit_order : OrderIntent F → S → S × Result BrokerSubmissionResult) (intent : OrderIntent F)
    : ℕ → S → S → Type 0 where
  fresh : {s : S} → Refused submit_order intent 0 s s
  refused :
      {n : ℕ} {s s' t : S} {r : BrokerSubmissionResult}
      → submit_order intent s ≡ (s', ok r)
      → r.submitted ≡ false
      → Refused submit_order intent n s' t
      → Refused submit_order intent (suc n) s t

module _ {F : Type 0} ⦃fl : Float F⦄ (python : Printing F) {S : Type 0}
    (submit_order : OrderIntent F → S → S × Result BrokerSubmissionResult)
    (intent : OrderIntent F) where
  -- A policy that retries what `_attempt` raises for a refusal.
  abbrev pub Retries : RetryPolicy F → Type 0
  Retries p = (text : String) → p.exceptions (transient_broker text) ≡ true

  attempt_refused :
      {s t : S} (r : BrokerSubmissionResult)
      → submit_order intent s ≡ (t, ok r)
      → r.submitted ≡ false
      → attempt submit_order intent s ≡ (t, err (transient_broker (reason r.error)))
  unfolding attempt accept
  attempt_refused r h denied = rw (h, denied) refl

  attempt_accepted :
      {s t : S} (r : BrokerSubmissionResult)
      → submit_order intent s ≡ (t, ok r)
      → r.submitted ≡ true
      → attempt submit_order intent s ≡ (t, ok r)
  unfolding attempt accept
  attempt_accepted r h taken = rw (h, taken) refl

  Refused-Failing :
      (p : RetryPolicy F) {n : ℕ} {s t : S} (l : Option Error)
      → Retries p
      → Refused submit_order intent n s t
      → (l' : Option Error) × Failing p (attempt submit_order intent) n s l t l'
  Refused-Failing p l retries fresh = (l, untried)
  Refused-Failing p l retries (refused {r = r} h denied rest) =
      let (l', more) = Refused-Failing p (some (transient_broker (reason r.error))) retries rest in
      (l', failed (attempt_refused r h denied) (retries _) more)

  -- Under a policy that retries `TransientBrokerError`, when the broker refuses fewer submissions
  -- than the policy allows attempts and accepts the next one, that acceptance is returned, after one delay of the backoff for each refusal.
  pub submit_with_retry_accepts :
      (policy : Option (RetryPolicy F)) (n : ℕ) {s t u : S} {r : BrokerSubmissionResult}
      → Retries (active_policy policy)
      → Refused submit_order intent n s t
      → n < (active_policy policy).max_attempts
      → submit_order intent t ≡ (u, ok r)
      → r.submitted ≡ true
      → submit_with_retry python submit_order intent policy s
        ≡ ran u (backoff python (active_policy policy) 1 n) (ok r)
  unfolding submit_with_retry answer
  submit_with_retry_accepts policy n {s = s} {t = t} {u = u} {r = r} retries h few run taken =
      ap (λ r. ran r.state r.slept (answer r.result))
        (ended ∙ ap (λ x. ran x.0 (backoff python p 1 n) x.1) accepted)
    where
      p : RetryPolicy F
      p = active_policy policy

      f : S → S × Result BrokerSubmissionResult
      f = attempt submit_order intent

      accepted : f t ≡ (u, ok r)
      accepted = attempt_accepted r run taken

      settles : (e : Error) → (f t).1 ≡ err e → p.exceptions e ≡ false
      settles e k = cc (ap (λ x. x.1) accepted)

      ended : call_with_retry python p f s ≡ ran (f t).0 (backoff python p 1 n) (f t).1
      ended = call_with_retry_settles python p f n (Refused-Failing p none retries h).1 few settles

  -- Under a policy that retries `TransientBrokerError`, when the broker answers and refuses all of
  -- the `n + 1` submissions that the policy allows, the result is
  -- not submitted and has the text of the exhausted retries with the last refusal's reason.
  pub submit_with_retry_gives_up :
      (policy : Option (RetryPolicy F)) (n : ℕ) {s t u : S} {r : BrokerSubmissionResult}
      → Retries (active_policy policy)
      → Refused submit_order intent n s t
      → (active_policy policy).max_attempts ≡ suc n
      → submit_order intent t ≡ (u, ok r)
      → r.submitted ≡ false
      → submit_with_retry python submit_order intent policy s
        ≡ ran u (backoff python (active_policy policy) 1 n) (
            ok (record {
              submitted = false;
              broker_order_id = none;
              error = some (
                  "All "
                  <> python.count_text (active_policy policy).max_attempts
                  <> " attempts failed; last error: "
                  <> python.error_text (transient_broker (reason r.error)));
            }))
  unfolding submit_with_retry answer
  submit_with_retry_gives_up policy n {r = r} retries h max run denied =
      ap (λ r. ran r.state r.slept (answer r.result))
        (call_with_retry_exhausts python _ _ n (Refused-Failing _ none retries h).1
          (attempt_refused r run denied) (retries _) max)
