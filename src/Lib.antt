-- ===== src/Lib.antt =====
-- The decision path of the trading platform, from the bars of the market to a submitted order, with
-- the stores that its advice comes from and the simulated portfolio of a backtest.
--
-- The market data (src/market_data) are validated, and polled by the runtime (src/app), which hands
-- each new bar on. A strategy emits a `StrategyDecision`. The arbitration (src/orchestration) weighs
-- it against the advice of the learner (src/memory) and of the news (src/nlp) and emits a
-- `FinalDecision`. The risk layer (src/risk) validates, sizes and, by its circuit breaker, cuts or
-- halts it, and emits an `ExecutionDecision`. The execution layer (src/execution) routes that to a
-- number of shares, builds an `OrderIntent` with a protective stop, and submits it with retries. The
-- stages of src/app carry a `RuntimeFrame` through the arbitration and the risk layer. A backtest
-- (src/backtest) fills the orders into a simulated portfolio.
--
-- Base, Common: names of the libraries, Boolean tests, integers; src/common/time.py (Common/Time,
--   Common/Instants), src/common/retry.py (Common/Retry), exceptions as values (Common/Errors),
--   texts, dicts (Common/Dict, Common/Entries), the dicts of `to_dict` and `from_dict`
--   (Common/Json) and the logs of one JSON line per record (Common/Jsonl).
-- Float: Python's float as an interface. `Float` has the operations that the source uses,
--   `IsFloat` the laws of IEEE 754 arithmetic that the theorems need, each true of doubles with
--   infinities and NaN, and Float/Fixed an instance by fixed-point numbers.
-- MarketData: src/market_data/models.py (Models) and validation.py (Validation), with what
--   `deduplicate_bars` keeps (Dedup) and what `find_missing_bars` reports (Missing), and
--   the token bucket of rate_limit.py (RateLimit); the clock's readings are a list.
-- Hmm: `RegimeState` (src/hmm/models.py).
-- Strategy: `StrategyDecision` (src/strategy/models.py), the registry and the service (Registry), and
--   the strategies of src/strategy/strategies (Regime).
-- Memory: src/memory/models.py (Experience, Decision), store.py (Store, Log), bandit.py, config.py
--   and service.py (Bandit, Learning).
-- Nlp: src/nlp/models.py (Signal, Item), store.py (Store, Log), service.py (Service).
-- Orchestration: src/orchestration/models.py, config.py (Decision), signals.py (Signals), and the
--   four policies of src/orchestration/policies with arbitration.py (Policies/Defs). `final_of` is
--   the `FinalDecision(...)` call that all four end with.
-- Risk: src/risk/models.py and limits.py (Portfolio, Decision; Exposure has the
--   values held in one pass), circuit_breakers.py (Breaker),
--   validators.py (Validators), sizing.py (Sizing), service.py (Service/Defs). In `RiskService.decide`
--   the two loops are `assess` and all that follows is `conclude`.
-- Execution: src/execution/models.py (Order), router.py (Router), order_builder.py, stop_loss.py and
--   execution_service.py (Builder), retry.py (Retry).
-- App: src/app/frame.py and pipeline.py (Frame), buffer.py (Buffer), `_poll_symbol` of runtime.py
--   (Feed, Delivery), orchestration_loop.py and risk_loop.py (Emitters).
-- Backtest: src/backtest/models.py (Trade) and portfolio.py (Portfolio, Holdings).
-- Ops: src/ops/models.py (Health, Platform), checks.py, health.py and alerts.py (Health),
--   validation.py and startup.py (Startup, Gate), deployment.py and rollback.py (Releases),
--   metrics.py (Metrics).
-- The modules named Wire, ItemWire and ExperienceWire hold `to_dict` and `from_dict` of a record.
-- Tests: concrete inputs at the fixed-point numbers.
--
-- Conventions. An exception is a value of `Error`, its class with the fixed head of its message,
-- and code that may raise returns a `Result`; a frozen dataclass is built and then checked
-- (`construct`). An object that is changed in place is taken and returned, also where the code
-- raises. The emergency lock file is an optional text, and a log file an optional list of lines.
-- A datetime is naive or has a fixed offset, in microseconds from 1970 on. Dicts that are read
-- back from a log have the keys of their metadata in the order of `sort_keys`. Sleeps are collected in a list. The loops of the
-- source run over a list or count down a number of attempts, but for `_expected_timestamps`, which
-- runs on fuel: one step for every step of the timeframe between its ends, and two more.
--
-- Parameters: the laws of floats; the printing of floats, integers, datetimes and exceptions; the
-- power of a float; the `json` module and the texts it works on; the calendar of a datetime; the
-- random variates of the bandit; the sentiment scorer; the probes, secrets and clock of a start-up;
-- the stop-loss policy of an order builder; the snapshot, portfolio, account and advice providers;
-- the clock's readings of the rate limiter; the answers of the market data provider; the broker
-- adapter, which wraps a third-party client.
--
-- Not modelled: logging, the latency gauge, the reason that the lock file quotes beyond its text,
-- the replay loop and the metrics of the backtest, the market data providers, the feature and HMM
-- code, the news normalisation and sentiment, and of ops the tracing and text reports.
pub mod Base
pub mod Float
pub mod Common
pub mod Hmm
pub mod Strategy
pub mod MarketData
pub mod Memory
pub mod Ops
pub mod Nlp
pub mod Orchestration
pub mod Risk
pub mod Execution
pub mod App
pub mod Backtest
mod Tests
