-- ===== src/MarketData/RateLimit.antt =====
-- The token bucket of src/market_data/rate_limit.py. The clock's readings are arguments.
use suky_tradin_bot.Base.{
  Bool, true, false, ◌≡◌, refl, List, [], ◌∷◌, Option, none, some, if◌then◌else◌, arith, Bool-cases,
  inl, inr, ap, sym,
}
use suky_tradin_bot.Common.Errors.{Result, ok, ◌>>◌, reject_if}
use suky_tradin_bot.Common.Time.{Datetime, elapsed}
use suky_tradin_bot.Float.{Float, IsFloat, ◌≼◌, zero_f, min_f, max_f, of_int}
use suky_tradin_bot.Float.Order

pub record RateLimiter (F : Type 0) : Type 0 where
  pub rate : F
  pub capacity : F
  pub tokens : F
  pub last_refill : Datetime

module _ {F : Type 0} ⦃fl : Float F⦄ where
  -- `RateLimiter(rate, capacity, clock)`, built when the clock says `now`
  unfoldable pub rate_limiter : F → F → Datetime → Result (RateLimiter F)
  rate_limiter rate capacity now = do
    reject_if (fl.le rate zero_f) "rate must be > 0"
    reject_if (fl.le capacity zero_f) "capacity must be > 0"
    ok (record { rate = rate; capacity = capacity; tokens = capacity; last_refill = now })

  -- `per_minute`
  abbrev pub per_minute : F → Datetime → Result (RateLimiter F)
  per_minute requests now = rate_limiter (fl.div requests (fl.decimal 60 0)) requests now

  -- `(end - start).total_seconds()`, the microseconds over a million.
  abbrev pub total_seconds : Datetime → Datetime → F
  total_seconds start end = fl.div (of_int (elapsed start end)) (fl.decimal 1000000 0)

  -- `_refill`
  unfoldable pub refill : Datetime → RateLimiter F → RateLimiter F
  refill now l = record {
    rate = l.rate;
    capacity = l.capacity;
    tokens =
        if fl.lt zero_f (total_seconds l.last_refill now)
        then min_f l.capacity (fl.add l.tokens (fl.mul (total_seconds l.last_refill now) l.rate))
        else l.tokens;
    last_refill = now;
  }

  -- `self._tokens -= tokens`
  abbrev pub spend : F → RateLimiter F → RateLimiter F
  spend n l = record {
    rate = l.rate;
    capacity = l.capacity;
    tokens = fl.sub l.tokens n;
    last_refill = l.last_refill;
  }

  -- The test of `try_acquire`, on a bucket that is refilled.
  abbrev pub take_from : F → RateLimiter F → Bool × RateLimiter F
  take_from n l = if fl.le n l.tokens then (true, spend n l) else (false, l)

  unfoldable pub try_acquire : F → Datetime → RateLimiter F → Bool × RateLimiter F
  try_acquire n now l = take_from n (refill now l)

  -- `sleep(max(wait_seconds, 0.0))`
  abbrev pub wait_for : F → RateLimiter F → F
  wait_for n l = max_f (fl.div (fl.sub n l.tokens) l.rate) zero_f

  -- The loop of `acquire` at the clock's readings, with the waits that it asks for; `none` where it
  -- is still waiting after the last reading.
  unfoldable pub acquire_loop : F → List Datetime → RateLimiter F → List F × Option (RateLimiter F)
  acquire_loop n [] l = ([], none)
  acquire_loop n (now ∷ rest) l =
      let answer = try_acquire n now l in
      let later = acquire_loop n rest answer.1 in
      if answer.0 then ([], some answer.1) else (wait_for n answer.1 ∷ later.0, later.1)

  unfoldable pub acquire :
      F → List Datetime → RateLimiter F → Result (List F × Option (RateLimiter F))
  acquire n readings l = do
    reject_if (fl.lt l.capacity n) "Requested tokens exceed bucket capacity"
    ok (acquire_loop n readings l)

  -- `granted` is what is left of a bucket within the capacity that held the tokens asked for.
  unfoldable pub IsGranted : F → RateLimiter F → RateLimiter F → Type 0
  IsGranted n l granted = (m : F) × (granted.tokens ≡ fl.sub m n) × (n ≼ m) × (m ≼ l.capacity)

some-injective :
    {F : Type 0} (a b : RateLimiter F) → ◌≡◌ {A = Option (RateLimiter F)} (some a) (some b) → a ≡ b
some-injective a b h = ground (arith, h)

module _ {F : Type 0} ⦃fl : Float F⦄ (laws : IsFloat F) where
  -- A refill never overfills the bucket, whatever the clock says.
  pub refill_bound :
      (now : Datetime) (l : RateLimiter F)
      → l.tokens ≼ l.capacity
      → (refill now l).tokens ≼ l.capacity
  unfolding refill
  refill_bound now l h =
      let full = (laws.le_numbers l.tokens l.capacity h).1 in
      ground (
        arith,
        Order.min_f-le_left laws l.capacity
            (fl.add l.tokens (fl.mul (total_seconds l.last_refill now) l.rate)) full,
        h,
      )

  -- What a request does to a bucket: the answer says if there was enough, and the bucket that is
  -- left has what was there, less the request if it was granted.
  pub try_acquire_settles :
      (n : F) (now : Datetime) (l : RateLimiter F)
      → ((try_acquire n now l).0 ≡ fl.le n (refill now l).tokens)
        × ((try_acquire n now l).1
            ≡ (if fl.le n (refill now l).tokens then spend n (refill now l) else refill now l))
  unfolding try_acquire
  try_acquire_settles n now l = elim (Bool-cases (fl.le n (refill now l).tokens)) [
    | inl e ↦ (rw (e) refl, rw (e) refl)
    | inr e ↦ (rw (e) refl, rw (e) refl)
  ]

  -- What one turn of the loop does with the answer of `try_acquire`.
  first_turn :
      (n : F) (now : Datetime) (rest : List Datetime) (l : RateLimiter F)
      → (acquire_loop n (now ∷ rest) l).1 ≡ (
          if fl.le n (refill now l).tokens
          then some (spend n (refill now l))
          else (acquire_loop n rest (refill now l)).1)
  unfolding acquire_loop try_acquire
  first_turn n now rest l = elim (Bool-cases (fl.le n (refill now l).tokens)) [
    | inl e ↦ rw (e) refl
    | inr e ↦ rw (e) refl
  ]

  -- In a bucket that is within its capacity, when the loop of `acquire` grants a request at one of
  -- the clock's readings, however many it refused before, what is left is a bucket that held the
  -- tokens asked for and was within the capacity, less those tokens.
  pub acquire_loop_grants :
      (n : F) (readings : List Datetime) (l granted : RateLimiter F)
      → l.tokens ≼ l.capacity
      → (acquire_loop n readings l).1 ≡ some granted
      → IsGranted n l granted
  unfolding acquire_loop IsGranted refill
  acquire_loop_grants n [] l granted h done = ground (arith, done)
  acquire_loop_grants n (now ∷ rest) l granted h done =
      elim (Bool-cases (fl.le n (refill now l).tokens)) [
        | inl e ↦
            let same =
              some-injective (spend n (refill now l)) granted
                (rw (first_turn n now rest l, e) at done) in
            ((refill now l).tokens, ap (λ x. x.tokens) (sym same), e, refill_bound now l h)
        | inr e ↦
            acquire_loop_grants n rest (refill now l) granted (refill_bound now l h)
              (rw (first_turn n now rest l, e) at done)
      ]
