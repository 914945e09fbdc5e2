-- ===== src/Backtester/State.antt =====
-- The events and the state of a backtester, its constructor and setters, and the end of `run`.
use Prim.Native.String.{String}
use lobsimulater.Base.{ℕ, List, [], ◌∷◌, ◌++◌, map, Option, Named}
use lobsimulater.Types.{Order, Timestamp, Execution, MarketDataUpdate}
use lobsimulater.Book.{OrderBook}
use lobsimulater.Double.{Double, nought}
use lobsimulater.Portfolio.{Portfolio, Snapshot, new_portfolio, set_commission_rate}
use lobsimulater.Metrics.{BacktestResult, Series, blank_result, compute_metrics}

pub data EventType : Type 0 where
  market_data signal order fill end_of_day : EventType

-- The payload of a signal event is not read, and left out.
pub record Event : Type 0 where
  pub type : EventType
  pub timestamp : Timestamp
  pub symbol : String
  pub market_update : Option MarketDataUpdate
  pub order : Option Order
  pub execution : Option Execution

-- `class Strategy`, over the state of a strategy and the signals.
pub record Hooks (D S X : Type 0) : Type 0 where
  pub on_market_data : MarketDataUpdate → OrderBook → S → Portfolio D → S × Portfolio D
  pub on_signal : X → OrderBook → S → Portfolio D → S × Portfolio D
  pub on_fill : Execution → S → Portfolio D → S × Portfolio D
  pub on_start : S → S
  pub on_end : Portfolio D → S → S

-- `class SignalGenerator`, over its state and the signals. An update can fault.
pub record Generator (G X : Type 0) : Type 0 where
  pub update : OrderBook → G → Option G
  pub generate_signals : OrderBook → G → List X × G

pub record PerformanceStats : Type 0 where
  pub events_processed : ℕ
  pub orders_sent : ℕ
  pub orders_filled : ℕ

pub record Backtester (D S G : Type 0) : Type 0 where
  pub strategies : List S
  pub portfolio : Portfolio D
  pub order_books : Named OrderBook
  pub signal_generator : G
  pub current_prices : Named D
  pub perf_stats : PerformanceStats
  pub portfolio_history : List (Snapshot D)
  pub initial_capital : D
  pub commission_rate : D
  pub last_result : BacktestResult D

-- The equity series that `run` builds from the snapshots.
abbrev pub equity_series : {D : Type 0} → List (Snapshot D) → Series D
equity_series = map λ s. (s.timestamp, s.equity)

module _ {D S G : Type 0} ⦃d : Double D⦄ where
  open d use {literal, mul}

  -- The constructor, with the signal generator that it makes.
  unfoldable pub new_backtester : G → Backtester D S G
  new_backtester generator = record {
    strategies = [];
    portfolio = new_portfolio (literal 1000000 0);
    order_books = [];
    signal_generator = generator;
    current_prices = [];
    perf_stats = record { events_processed = 0; orders_sent = 0; orders_filled = 0 };
    portfolio_history = [];
    initial_capital = literal 1000000 0;
    commission_rate = literal 1 4;
    last_result = blank_result;
  }

  unfoldable pub add_strategy : S → Backtester D S G → Backtester D S G
  add_strategy s t = record t { strategies = t.strategies ++ (s ∷ []) }

  unfoldable pub set_initial_capital : D → Backtester D S G → Backtester D S G
  set_initial_capital capital t = record t {
    initial_capital = capital;
    portfolio = new_portfolio capital;
  }

  -- The setter of the backtester, which hands the rate to its portfolio.
  unfoldable pub change_commission_rate : D → Backtester D S G → Backtester D S G
  change_commission_rate rate t = record t {
    commission_rate = rate;
    portfolio = set_commission_rate rate t.portfolio;
  }

  -- The end of `run`: the strategies are told, and the metrics are computed, with the defaults of
  -- `computeMetrics`.
  unfoldable pub finish : {X : Type 0} → Hooks D S X → Backtester D S G → Backtester D S G
  finish hooks t = record t {
    strategies = map (hooks.on_end t.portfolio) t.strategies;
    last_result =
        compute_metrics (equity_series t.portfolio_history) [] nought
          (mul (literal 65 1) (literal 3600 0));
  }
