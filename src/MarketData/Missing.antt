-- ===== src/MarketData/Missing.antt =====
-- What `find_missing_bars` (src/market_data/validation.py) reports, and that its loop ends.
use suky_tradin_bot.Base.Int.{pos, negsuc}
use suky_tradin_bot.Common.Errors.{Result, ok}
use suky_tradin_bot.Risk.Portfolio.{keep}
use mathlib.Core.Path.{subst}
use suky_tradin_bot.Base.{
  ◌∙◌, ℕ, Bool, ◌≡◌, ◌<◌, ◌*◌, ◌≤◌, suc, Option, List, ◌+◌, true, false, arith, some, [], ap,
  if◌then◌else◌, ◌∷◌, ◌&&◌, Bool-cases, refl, inl, sym, inr, zero, ◌||◌, not, ◌-◌, ◌/◌, map, ◌%◌,
  ltb, ◌%◌, ◌==◌, ◌==◌,
}
use suky_tradin_bot.Common.Time.{Datetime, earlier, same_time, naive, aware, same_time_refl}
use native.Mathlib.Nat.{lt-div-mul-add}
use suky_tradin_bot.Common.Instants.{same_time_trans, same_time_sym, not_earlier, earlier_trans}
use suky_tradin_bot.MarketData.Validation.{
  micros, shift, delta, wanted, expected_from, expected_timestamps, is_in, find_missing_bars,
  local_micros, mixed, advance, end_of_time, weekday,
}
use suky_tradin_bot.MarketData.Models.{Bar, Timeframe, min_1, min_5, min_15, hour_1, day_1}

-- The time after `k` steps.
abbrev pub grid : Datetime → ℕ → ℕ → Datetime
grid start step k = shift start (k * step)

-- A test that does not tell two datetimes of one instant apart.
abbrev Respects : (Datetime → Bool) → Type 0
Respects p = (s t : Datetime) → same_time s t ≡ true → p s ≡ p t

-- With fuel for `n` steps, `n` of which reach the end, the loop returns; and a time of the grid is
-- in what it returns exactly if it is before the end and wanted. No time before the start is.
IsExpected : (Datetime → Bool) → ℕ → Datetime → Datetime → Option (Result (List Datetime)) → Type 0
IsExpected wants step start end r =
    (xs : List Datetime) × (r ≡ some (ok xs))
    × ((k : ℕ)
        → is_in (grid start step k) xs
          ≡ (earlier (grid start step k) end && wants (grid start step k)))
    × ((t : Datetime) → earlier t start ≡ true → is_in t xs ≡ false)

past : (t end : Datetime) (step k : ℕ) → earlier t end ≡ false → earlier (grid t step k) end ≡ false
past (naive a) (naive b) step k h = ground arith
past (aware _ a) (aware _ b) step k h = ground arith
past (naive a) (aware _ b) step k h = refl
past (aware _ a) (naive b) step k h = refl

grid_zero : (t : Datetime) (step : ℕ) → grid t step 0 ≡ t
grid_zero (naive a) step = ap naive (ground arith)
grid_zero (aware o a) step = ap (aware o) (ground arith)

shift-suc : (t : Datetime) (step k : ℕ) → grid t step (suc k) ≡ grid (shift t step) step k
shift-suc (naive a) step k = ap naive (ground arith)
shift-suc (aware o a) step k = ap (aware o) (ground arith)

-- A later time of the grid is another one.
shift_other : (t : Datetime) (step k : ℕ) → 0 < step → same_time t (grid t step (suc k)) ≡ false
shift_other (naive a) step k h = ground arith
shift_other (aware o a) step k h = ground arith

reached :
    (t end : Datetime) (n step : ℕ)
    → micros end ≤ micros t + suc n * step
    → micros end ≤ micros (shift t step) + n * step
reached (naive a) end n step h = ground arith
reached (aware _ a) end n step h = ground arith

at_end : (t end : Datetime) → micros end ≤ micros t → earlier t end ≡ false
at_end (naive a) (naive b) h = ground arith
at_end (aware _ a) (aware _ b) h = ground arith
at_end (naive a) (aware _ b) h = refl
at_end (aware _ a) (naive b) h = refl

step_forward : (t : Datetime) (step : ℕ) → 0 < step → earlier t (shift t step) ≡ true
step_forward (naive a) step h = ground arith
step_forward (aware o a) step h = ground arith

-- The first time of a list is in it exactly if it was wanted.
first :
    (w : Bool) (t : Datetime) (xs : List Datetime)
    → is_in t xs ≡ false
    → is_in t (if w then t ∷ xs else xs) ≡ w
unfolding is_in
first true t xs h = ap (λ b. b || is_in t xs) (same_time_refl t)
first false t xs h = h

others :
    (w : Bool) (s t : Datetime) (xs : List Datetime)
    → same_time s t ≡ false
    → is_in t (if w then s ∷ xs else xs) ≡ is_in t xs
unfolding is_in
others true s t xs h = ap (λ b. b || is_in t xs) h
others false s t xs h = refl

mixed-shift : (t end : Datetime) (step : ℕ) → mixed (shift t step) end ≡ mixed t end
mixed-shift (naive a) end step = refl
mixed-shift (aware o a) end step = refl

-- No step from a time before the end goes past `datetime.max`.
abbrev pub Fits : Datetime → Datetime → ℕ → Type 0
Fits t end step = local_micros t + micros end + step ≤ end_of_time + micros t

advance-Fits :
    (t end : Datetime) (step : ℕ)
    → mixed t end ≡ false
    → earlier t end ≡ true
    → Fits t end step
    → advance t step ≡ ok (shift t step)
unfolding advance
advance-Fits (naive a) (naive b) step m h fits = ground arith
advance-Fits (aware o a) (aware _ b) step m h fits = ground arith
advance-Fits (naive a) (aware _ b) step m h fits = ground arith
advance-Fits (aware _ a) (naive b) step m h fits = ground arith

Fits-shift : (t end : Datetime) (step : ℕ) → Fits t end step → Fits (shift t step) end step
unfolding local_micros
Fits-shift (naive a) end step fits = ground arith
Fits-shift (aware (pos o) a) end step fits = ground arith
Fits-shift (aware (negsuc o) a) end step fits = ground arith

module _ (wants : Datetime → Bool) (step : ℕ) (end : Datetime) where
  expected_from_end :
      (n : ℕ) (start : Datetime)
      → mixed start end ≡ false
      → earlier start end ≡ false
      → IsExpected wants step start end (expected_from (suc n) wants step start end)
  unfolding expected_from IsExpected is_in
  expected_from_end n start m h = (
    [],
    rw (expected_from, m, h) refl,
    λ k. ap (λ b. b && wants (grid start step k)) (sym (past start end step k h)),
    λ t e. refl,
  )

  expected_from_next :
      (n : ℕ) (start : Datetime)
      → 0 < step
      → mixed start end ≡ false
      → Fits start end step
      → earlier start end ≡ true
      → IsExpected wants step
          (shift start step)
          end
          (expected_from n wants step (shift start step) end)
      → IsExpected wants step start end (expected_from (suc n) wants step start end)
  unfolding expected_from IsExpected
  expected_from_next n start positive m fits h (xs, e, all, before) = (
    if wants start then start ∷ xs else xs,
    rw (expected_from, m, h, advance-Fits start end step m h fits, e) refl,
    elim [
      | zero ↦
          subst (λ t. is_in t (if wants start then start ∷ xs else xs) ≡ (earlier t end && wants t))
            (sym (grid_zero start step))
            (first (wants start) start xs (before start (step_forward start step positive))
              ∙ ap (λ b. b && wants start) (sym h))
      | suc k ↦
          subst (λ t. is_in t (if wants start then start ∷ xs else xs) ≡ (earlier t end && wants t))
            (sym (shift-suc start step k))
            (others (wants start) start (grid (shift start step) step k) xs (
                ap (same_time start) (sym (shift-suc start step k))
                ∙ shift_other start step k positive)
              ∙ all k)
    ],
    λ t e.
        others (wants start) start t xs (same_time_sym start t ∙ not_earlier t start e)
        ∙ before t (earlier_trans t start (shift start step) e (step_forward start step positive)),
  )

  expected_from-IsExpected :
      (n : ℕ) (start : Datetime)
      → 0 < step
      → mixed start end ≡ false
      → Fits start end step
      → micros end ≤ micros start + n * step
      → IsExpected wants step start end (expected_from (suc n) wants step start end)
  expected_from-IsExpected zero start positive m fits h =
      expected_from_end zero start m (at_end start end (ground arith))
  expected_from-IsExpected (suc n) start positive m fits h = elim (Bool-cases (earlier start end)) [
    | inl e ↦ expected_from_next (suc n) start positive m fits e (
        expected_from-IsExpected n (shift start step) positive (mixed-shift start end step ∙ m)
          (Fits-shift start end step fits) (reached start end n step h))
    | inr e ↦ expected_from_end (suc n) start m e
  ]

is_in_same : (s t : Datetime) (xs : List Datetime) → same_time s t ≡ true → is_in s xs ≡ is_in t xs
unfolding is_in
is_in_same s t [] h = refl
is_in_same s t (x ∷ xs) h =
    ground
      (arith, is_in_same s t xs h, same_time_trans x s t, same_time_trans x t s, same_time_sym s t)

is_in-keep :
    (present xs : List Datetime) (t : Datetime)
    → is_in t (keep (λ s. not (is_in s present)) xs) ≡ (is_in t xs && not (is_in t present))
unfolding is_in
is_in-keep present [] t = refl
is_in-keep present (x ∷ xs) t = ground (arith, is_in-keep present xs t, is_in_same x t present)

near : (b a d q : ℕ) → b - a < q * d + d → b ≤ a + (q + 1) * d
near b a d q h = ground arith

-- The fuel that `expected_timestamps` gives has a step for every time of the grid.
enough : (a b d : ℕ) → 0 < d → b ≤ a + ((b - a) / d + 1) * d
enough a b d h = near b a d ((b - a) / d) (lt-div-mul-add h)

delta_positive : (timeframe : Timeframe) → 0 < delta timeframe
unfolding delta
delta_positive min_1 = omega arith
delta_positive min_5 = omega arith
delta_positive min_15 = omega arith
delta_positive hour_1 = omega arith
delta_positive day_1 = omega arith

-- The minutes from one bar to the next.
abbrev pub minutes : Timeframe → ℕ
minutes min_1 = 1
minutes min_5 = 5
minutes min_15 = 15
minutes hour_1 = 60
minutes day_1 = 1440

-- Of the days that a datetime's own clock has counted since a Thursday, the third of every seven is
-- a Saturday and the fourth a Sunday.
abbrev pub is_weekend : Datetime → Bool
is_weekend t = local_micros t / 86_400_000_000 % 7 == 2 || local_micros t / 86_400_000_000 % 7 == 3

-- A daily bar is due on every day but those of the weekend, any other always.
abbrev pub is_due : Timeframe → Datetime → Bool
is_due day_1 t = not (is_weekend t)
is_due _ t = true

-- The time that is `k` bars after the start.
abbrev pub nth_bar : Timeframe → Datetime → ℕ → Datetime
nth_bar timeframe start k = shift start (k * (minutes timeframe * 60_000_000))

delta_lem : (timeframe : Timeframe) → delta timeframe ≡ minutes timeframe * 60_000_000
unfolding delta
delta_lem min_1 = refl
delta_lem min_5 = refl
delta_lem min_15 = refl
delta_lem hour_1 = refl
delta_lem day_1 = refl

weekday_lem : (d : ℕ) → ltb ((d + 3) % 7) 5 ≡ not (d % 7 == 2 || d % 7 == 3)
weekday_lem d = ground arith

wanted_lem : (timeframe : Timeframe) (t : Datetime) → wanted timeframe t ≡ is_due timeframe t
unfolding wanted weekday
wanted_lem min_1 t = refl
wanted_lem min_5 t = refl
wanted_lem min_15 t = refl
wanted_lem hour_1 t = refl
wanted_lem day_1 t = weekday_lem (local_micros t / 86_400_000_000)

answered :
    {F : Type 0} (bars : List (Bar F)) (timeframe : Timeframe) (start end : Datetime)
    → mixed start end ≡ false
    → Fits start end (delta timeframe)
    → (missing : List Datetime) × (find_missing_bars bars timeframe start end ≡ some (ok missing))
      × ((k : ℕ)
          → is_in (grid start (delta timeframe) k) missing ≡ (
              (earlier (grid start (delta timeframe) k) end
                && wanted timeframe (grid start (delta timeframe) k))
              && not (is_in (grid start (delta timeframe) k) (map (λ b. b.timestamp) bars))))
unfolding find_missing_bars expected_timestamps IsExpected
answered bars timeframe start end m fits =
    let (xs, e, all, _) =
      expected_from-IsExpected (wanted timeframe) (delta timeframe) end
        ((micros end - micros start) / delta timeframe + 1) start (delta_positive timeframe) m fits
        (enough (micros start) (micros end) (delta timeframe) (delta_positive timeframe)) in
    (
      keep (λ t. not (is_in t (map (λ b. b.timestamp) bars))) xs,
      rw (find_missing_bars, expected_timestamps, e) refl,
      λ k.
          is_in-keep (map (λ b. b.timestamp) bars) xs (grid start (delta timeframe) k)
          ∙ ap
              (λ b. b && not (is_in (grid start (delta timeframe) k) (map (λ b. b.timestamp) bars)))
              (all k),
    )

-- For a range of two naive or two aware datetimes, in which no step from before the end goes past
-- `datetime.max`, the loop of `_expected_timestamps` ends and `find_missing_bars` answers. Of the
-- times that are a whole number of bars after the start it reports exactly those that are before
-- the end, are the timestamp of no bar and, for daily bars, do not fall on a weekend by the
-- range's own clock.
pub find_missing_bars_answers :
    {F : Type 0} (bars : List (Bar F)) (timeframe : Timeframe) (start end : Datetime)
    → mixed start end ≡ false
    → Fits start end (minutes timeframe * 60_000_000)
    → (missing : List Datetime) × (find_missing_bars bars timeframe start end ≡ some (ok missing))
      × ((k : ℕ)
          → is_in (nth_bar timeframe start k) missing ≡ (
              (earlier (nth_bar timeframe start k) end
                && is_due timeframe (nth_bar timeframe start k))
              && not (is_in (nth_bar timeframe start k) (map (λ b. b.timestamp) bars))))
find_missing_bars_answers bars timeframe start end m fits =
    let steps = delta_lem timeframe in
    let (missing, done, all) =
      answered bars timeframe start end m (subst (λ d. Fits start end d) (sym steps) fits) in
    (
      missing,
      done,
      λ k.
          subst
            (λ d. is_in (grid start d k) missing ≡ (
              (earlier (grid start d k) end && is_due timeframe (grid start d k))
              && not (is_in (grid start d k) (map (λ b. b.timestamp) bars))))
            steps
            (all k
              ∙ ap
                  (λ w.
                    (earlier (grid start (delta timeframe) k) end && w)
                    && not (is_in (grid start (delta timeframe) k) (map (λ b. b.timestamp) bars)))
                  (wanted_lem timeframe (grid start (delta timeframe) k))),
    )
