-- ===== src/Lib.antt =====
-- FuzzHelm: the risk circuit of a trading system, the execution of its orders and the account, and the
-- parts beside them that decide without floats.
--
-- A request for a position goes through the chain of risk rules; the state machine turns the capital of
-- each bar into a risk state; a kill switch latches both. The models are functions on records that return
-- the new state. A Python exception is the constructor `err` of `Result` (Base/Results.antt), without its
-- message. A callback or sink gets what an operation returns, so the record or the transition is part of
-- the result; a clock is its reading, passed in.
--
-- Files and code:
--   Base        names of the libraries, tests on numbers, lists, results, integers.
--   Decimal     src/fuzzhelm/core/money.py and Python's decimals: an integer with a scale. Comparisons are
--               exact; sums, products and quotients are rounded to 38 digits, half to even. Signed zeros,
--               NaN and infinities do not occur. `quotient` stands where the divisor is positive.
--   Core        core/enums.py, core/clock.py, core/dto.py, core/journal.py, core/digest.py, and the floats that the code
--               only compares (Core/Float.antt).
--   Risk        risk/: KillSwitch (killswitch.py), Tracker and Context (context.py), Config (config.py),
--               State (state.py), Verdict (verdict.py), Margin (margin.py), Rules (rules/ and the mode gate
--               of guard.py), Journal (journal.py), Guard (guard.py).
--   Sizing      sizing/hysteresis.py. Features: features/window.py.
--   Ingest      ingest/reconnect.py (Watchdog), ingest/gap_detector.py (Gap), ingest/ratelimit.py
--               (Weights), ingest/dedup.py (Dedup), ingest/candles.py (Candles). The loop of `_drain` has
--               as many turns as there are candles held and minutes skipped: every turn uses one up.
--   Execution   execution/: Portfolio (portfolio.py), Router (router.py), Costs (cost_model.py), Broker
--               (paper_broker.py); Orders is the part of core/dto.py that they share. Portfolio is written
--               over the interface `Number` (Number.antt), which the decimals fill.
--   Quality     quality/invariants.py.
--   Examples, Runs, OrderRuns, BrokerRuns, CandleRuns  concrete runs of each part.
-- Paths are below src/fuzzhelm/ where they do not name it. `Defs` holds the definitions of a part, and the
-- modules beside it are named for what they prove.
--
-- How the parts meet: `Guard.evaluate` runs `Rules.check` on a `RiskContext`, writes each `RuleVerdict`
-- with `Journal.record_rule`, composes them with `Verdict.compose`, and trips the `KillSwitch` on a halt;
-- `State.update` feeds the tracker, classifies its snapshot and trips the same kind of switch; the mode
-- gate sees the state and the switch.
--
-- `Router.submit` calls any `Venue`; the broker is one in the program. `Broker.on_bar` takes its prices and
-- fees from Costs and gives `Fill`s and `FundingCharge`s, which `Portfolio.apply_fill` and
-- `apply_funding` book; `Portfolio.Reachable` is an account after any run of them.
--
-- Bounds: the fuel of `Decimal.width` is the number itself, which has no fewer units than digits. The loops
-- of `Broker.Path` have a round for every stop and level and one more, and `funding_times` one for every day up
-- to the end and two more; a result `none` would say that it ran out. Times of the execution are natural
-- numbers, as core/dto.py checks. Integers are unbounded, as Python's are. Loops over rules,
-- verdicts, bars and entries are recursion on the list.
--
-- Parameters: `Core.Journal.Backend` stands for BLAKE2b, orjson and the formatting of a decimal; nothing
-- is assumed of them but that the equality test of digests is right. `Broker.Outside` stands for numpy's
-- generator, the identifiers, the square root of `decimal` and the text of an order number, of which nothing is
-- assumed; `Router.Venue` for a venue, whose `submit` and
-- `query_order` may fail; its `on_bar` and `cancel_all` return.
--
-- Not modelled: numpy and float arithmetic (sizing, fuzzy inference, detectors, features), input and
-- output (exchange clients, SQL, HTTP, workers, command line), messages of exceptions, and canonical text
-- of payloads. That the two forms of the equity agree is not stated: it needs arithmetic without rounding,
-- which decimals of 38 digits are not. The guard's rules are the seven classes of the repository; a rule of
-- another class has no
-- model.

pub mod Base
pub mod Decimal
pub mod Core
pub mod Risk
pub mod Sizing
pub mod Features
pub mod Ingest
pub mod Execution
pub mod Quality
