-- ===== src/Common/Retry/Outcomes.antt =====
-- How a call with retries ends, by what its attempts did.
use mathlib.Core.List.{append-nil}
use suky_tradin_bot.Base.{
  ◌≡◌, refl, ℕ, zero, suc, ◌+◌, ◌-◌, ◌<◌, arith, ap, ◌∙◌, ◌<>◌, ◌∷◌, ◌++◌, ltb, ◌≤◌, true, false,
  Option, none, some, List, [], ◌≤◌, ◌++◌, arith, ltb,
}
use suky_tradin_bot.Common.Errors.{Error, Result, ok, err, retry_exhausted}
use suky_tradin_bot.Common.Retry.{
  RetryPolicy, Printing, Run, ran, delay_for_attempt, pause, after_pause, settle, give_up, attempts,
  call_with_retry,
}
use suky_tradin_bot.Float.{Float}

-- `n` successive attempts from `s` raise exceptions that the policy retries, and leave `t`.
pub data Failing {F : Type 0} (p : RetryPolicy F) {S T : Type 0} (func : S → S × Result T)
    : ℕ → S → Option Error → S → Option Error → Type 0 where
  untried : {s : S} {e : Option Error} → Failing p func 0 s e s e
  failed :
      {n : ℕ} {s s' t : S} {l l' : Option Error} {e : Error}
      → func s ≡ (s', err e)
      → p.exceptions e ≡ true
      → Failing p func n s' (some e) t l'
      → Failing p func (suc n) s l t l'

module _ {F : Type 0} ⦃fl : Float F⦄ (python : Printing F) (p : RetryPolicy F) where
  -- The `n` delays from the one before attempt `k + 1` on.
  unfoldable pub backoff : (k n : ℕ) → List F
  backoff k zero = []
  backoff k (suc n) =
      fl.mul p.initial_delay_seconds (python.power p.backoff_multiplier (k - 1)) ∷ backoff (suc k) n

module _ {F : Type 0} ⦃fl : Float F⦄ (python : Printing F) (p : RetryPolicy F) {S T : Type 0}
    (func : S → S × Result T) where
  open fl use {mul}

  unfoldable pub slept_first : List F → Run S F T → Run S F T
  slept_first w r = ran r.state (w ++ r.slept) r.result

  delayed :
      (k : ℕ)
      → 1 ≤ k
      → delay_for_attempt python p k
        ≡ ok (mul p.initial_delay_seconds (python.power p.backoff_multiplier (k - 1)))
  unfolding delay_for_attempt
  delayed k h = ground arith

  paused :
      (k : ℕ) (s : S) (r : Run S F T)
      → 1 ≤ k
      → k < p.max_attempts
      → after_pause python p func s (pause python p k) r ≡ slept_first (backoff python p k 1) r
  unfolding pause after_pause backoff slept_first
  paused k s r h h' = rw (delayed k h, test) refl
    where
      test : ltb k p.max_attempts ≡ true
      test = ground arith

  attempts_skip :
      (n m k : ℕ) {s t : S} {l l' : Option Error}
      → Failing p func n s l t l'
      → 1 ≤ k
      → k + n ≤ p.max_attempts
      → attempts python p func (n + m) k s l
        ≡ slept_first (backoff python p k n) (attempts python p func m (k + n) t l')
  unfolding attempts settle backoff slept_first
  attempts_skip zero m k untried one h = rw (zero_k, zero_m) refl
    where
      zero_k : k + 0 ≡ k
      zero_k = omega arith

      zero_m : 0 + m ≡ m
      zero_m = omega arith
  attempts_skip (suc n) m k (failed {s' = s'} run caught rest) one h =
      rw (later, index, run, caught)
        (paused k s' _ one (omega arith)
          ∙ ap (slept_first (backoff python p k 1))
              (attempts_skip n m (suc k) rest (omega arith) (omega arith)))
    where
      later : suc n + m ≡ suc (n + m)
      later = omega arith

      index : k + suc n ≡ suc k + n
      index = omega arith

  call_with_retry_skips :
      (n m : ℕ) {s t : S} {l : Option Error}
      → Failing p func n s none t l
      → p.max_attempts ≡ n + m
      → 0 < m
      → call_with_retry python p func s
        ≡ slept_first (backoff python p 1 n) (attempts python p func m (1 + n) t l)
  unfolding call_with_retry
  call_with_retry_skips n m {s = s} h split one =
      ap (λ c. attempts python p func c 1 s none) split
      ∙ attempts_skip n m 1 h (omega arith) (omega arith)

  settle_at_once :
      (k : ℕ) (again : S → Error → Run S F T) (x : S × Result T)
      → ((e : Error) → x.1 ≡ err e → p.exceptions e ≡ false)
      → settle python p func k again x ≡ ran x.0 [] x.1
  unfolding settle
  settle_at_once k again (s, ok a) h = refl
  settle_at_once k again (s, err e) h = rw (h e refl) refl

  slept_append : (w : List F) (s : S) (r : Result T) → slept_first w (ran s [] r) ≡ ran s w r
  unfolding slept_first
  slept_append w s r = rw (append-nil w) refl

  -- When the first `n` attempts raise what the policy retries, and fewer than `max_attempts` did,
  -- the next attempt decides the call unless it raises such an exception too: its state and its
  -- outcome are the call's, and the sleeps are the `n` delays of the exponential backoff.
  pub call_with_retry_settles :
      (n : ℕ) {s t : S} {l : Option Error}
      → Failing p func n s none t l
      → n < p.max_attempts
      → ((e : Error) → (func t).1 ≡ err e → p.exceptions e ≡ false)
      → call_with_retry python p func s ≡ ran (func t).0 (backoff python p 1 n) (func t).1
  unfolding attempts
  call_with_retry_settles n {t = t} {l = l} h small settles =
      call_with_retry_skips n (suc (p.max_attempts - suc n)) h (omega arith) (omega arith)
      ∙ ap (slept_first (backoff python p 1 n)) (settle_at_once (1 + n) _ (func t) settles)
      ∙ slept_append (backoff python p 1 n) (func t).0 (func t).1

  last_fails :
      (k : ℕ) (l : Option Error) {t u : S} {e : Error}
      → func t ≡ (u, err e)
      → p.exceptions e ≡ true
      → p.max_attempts ≡ k
      → attempts python p func 1 k t l ≡ give_up python p func u (some e)
  unfolding attempts settle pause after_pause
  last_fails k l run caught last = rw (run, caught, test) refl
    where
      test : ltb k p.max_attempts ≡ false
      test = ground arith

  -- When all of the `n + 1` attempts that the policy allows raise what it retries, the call raises
  -- `RetryExhaustedError` with the text of the last exception, after `n` delays of the backoff.
  pub call_with_retry_exhausts :
      (n : ℕ) {s t u : S} {l : Option Error} {e : Error}
      → Failing p func n s none t l
      → func t ≡ (u, err e)
      → p.exceptions e ≡ true
      → p.max_attempts ≡ suc n
      → call_with_retry python p func s
        ≡ ran u (backoff python p 1 n) (
            err (
              retry_exhausted (
                "All "
                <> python.count_text p.max_attempts
                <> " attempts failed; last error: "
                <> python.error_text e)))
  unfolding give_up
  call_with_retry_exhausts n h run caught last =
      call_with_retry_skips n 1 h (omega arith) (omega arith)
      ∙ ap (slept_first (backoff python p 1 n)) (last_fails (1 + n) _ run caught (omega arith))
      ∙ slept_append (backoff python p 1 n) _ _
