-- ===== src/Ops/Metrics.antt =====
-- The metrics registry of src/ops/metrics.py: its two dicts hold the metrics by name, so a metric
-- that a caller got stays the registry's own and is changed in place.
use mathlib.Core.Path.{subst}
use suky_tradin_bot.Base.{
  Bool, ◌≡◌, String, ◌<>◌, List, [], ◌∷◌, Option, none, some, if◌then◌else◌, Bool-cases, inl, ◌++◌,
  ◌++◌, is_empty, inr,
}
use suky_tradin_bot.Common.Dict.{Dict, lookup, insert}
use suky_tradin_bot.Common.Errors.{Result, ok, ◌>>=◌, ◌>>◌, reject_if, err≢ok, ok-injective}
use suky_tradin_bot.Common.Text.{is_nil, join}
use suky_tradin_bot.Float.{Float, IsFloat, ◌≼◌, zero_f, one_f}
use suky_tradin_bot.Float.Order
use suky_tradin_bot.Ops.Health.{
  HealthStatus, healthy, degraded, unhealthy, HealthCheckResult, PlatformHealth,
}

pub record Metric (F : Type 0) : Type 0 where
  pub name : String
  pub help_text : String
  pub value : F

pub record MetricsRegistry (F : Type 0) : Type 0 where
  pub counters : Dict (Metric F)
  pub gauges : Dict (Metric F)

-- `"\n".join(lines) + ("\n" if lines else "")`
abbrev pub lines_text : List String → String
lines_text lines = join "\n" lines <> (if is_empty lines then "" else "\n")

module _ {F : Type 0} ⦃fl : Float F⦄ where
  -- `Counter(name, help_text)` and `Gauge(name, help_text)`
  unfoldable pub new_metric : String → String → Result (Metric F)
  new_metric name help_text = do
    reject_if (is_nil name) "name must not be empty"
    ok (record { name = name; help_text = help_text; value = zero_f })

  -- `Gauge.set`
  abbrev pub with_value : Metric F → F → Metric F
  with_value m v = record { name = m.name; help_text = m.help_text; value = v }

  -- `Counter.inc`
  unfoldable pub counter_inc : F → Metric F → Result (Metric F)
  counter_inc amount m = do
    reject_if (fl.lt amount zero_f) "Counter.inc amount must be non-negative"
    ok (with_value m (fl.add m.value amount))

  -- `Gauge.inc`
  abbrev pub gauge_inc : F → Metric F → Metric F
  gauge_inc amount m = with_value m (fl.add m.value amount)

  -- `Gauge.dec`
  abbrev pub gauge_dec : F → Metric F → Metric F
  gauge_dec amount m = with_value m (fl.sub m.value amount)

  -- The metric under the name, or a new one that is put there.
  abbrev pub or_new : String → String → Option (Metric F) → Result (Metric F)
  or_new name help_text (some m) = ok m
  or_new name help_text none = new_metric name help_text

  -- `MetricsRegistry.counter`, then a change of the counter it gives
  unfoldable pub on_counter :
      String
      → String
      → (Metric F → Result (Metric F))
      → MetricsRegistry F
      → Result (MetricsRegistry F)
  on_counter name help_text change r = do
    found ← or_new name help_text (lookup name r.counters)
    changed ← change found
    ok (record { counters = insert name changed r.counters; gauges = r.gauges })

  -- `MetricsRegistry.gauge`, then `set`
  unfoldable pub set_gauge : String → String → F → MetricsRegistry F → Result (MetricsRegistry F)
  set_gauge name help_text v r = do
    found ← or_new name help_text (lookup name r.gauges)
    ok (record { counters = r.counters; gauges = insert name (with_value found v) r.gauges })

  -- `_STATUS_VALUES`
  abbrev pub status_number : HealthStatus → F
  status_number healthy = one_f
  status_number degraded = fl.decimal 5 1
  status_number unhealthy = zero_f

  abbrev pub check_number : Bool → F
  check_number b = if b then one_f else zero_f

  -- The loop of `record_health_metrics` over the checks.
  unfoldable pub record_checks :
      List HealthCheckResult → MetricsRegistry F → Result (MetricsRegistry F)
  record_checks [] r = ok r
  record_checks (c ∷ rest) r =
      set_gauge ("platform_health_check_" <> c.name)
        ("Health of the " <> (c.name <> " subsystem (1=healthy, 0=unhealthy)"))
        (check_number c.is_healthy) r
      >>= record_checks rest

  unfoldable pub record_health_metrics :
      MetricsRegistry F → PlatformHealth → Result (MetricsRegistry F)
  record_health_metrics r h = do
    with_status ←
        set_gauge "platform_health_status" "Aggregate platform health (1=healthy, 0=unhealthy)"
          (status_number h.status) r
    record_checks h.checks with_status

  -- The lines of one metric.
  unfoldable pub lines_of : String → (F → String) → Metric F → List String
  lines_of kind show m =
      let rest =
        ("# TYPE " <> (m.name <> (" " <> kind))) ∷ (m.name <> (" " <> show m.value)) ∷ [] in
      if is_nil m.help_text then rest else ("# HELP " <> (m.name <> (" " <> m.help_text))) ∷ rest

  unfoldable pub all_lines : String → (F → String) → Dict (Metric F) → List String
  all_lines kind show [] = []
  all_lines kind show ((_, m) ∷ rest) = lines_of kind show m ++ all_lines kind show rest

  -- `export_prometheus_text`, where `show` is the text of a float.
  unfoldable pub export_prometheus_text : (F → String) → MetricsRegistry F → String
  export_prometheus_text show r =
      lines_text (all_lines "counter" show r.counters ++ all_lines "gauge" show r.gauges)

module _ {F : Type 0} ⦃fl : Float F⦄ (laws : IsFloat F) where
  -- A counter that is a number from zero on never goes down.
  pub counter_inc_rises :
      (amount : F) (m m' : Metric F)
      → zero_f ≼ m.value
      → amount ≼ amount
      → counter_inc amount m ≡ ok m'
      → m.value ≼ m'.value
  unfolding counter_inc
  counter_inc_rises amount m m' from number done = elim (Bool-cases (fl.lt amount zero_f)) [
    | inl e ↦ absurd (err≢ok (rw (e) at done))
    | inr e ↦
        let same =
          ok-injective {a = with_value m (fl.add m.value amount)} {b = m'} (rw (e) at done) in
        let positive = Order.not-lt→le laws amount zero_f number (Order.zero_self laws) e in
        subst (λ x. m.value ≼ x.value) same (laws.le-add m.value amount from positive).0
  ]
