-- ===== src/Main.antt =====
-- `main` (src/main.cpp): a backtest of the market maker over the events of one CSV file. What it prints
-- are two numbers of the result. A file is given by its lines, and `none` is a file that does not open.
pub mod Constant
use Prim.Native.String.{String}
use lobsimulater.Base.{ℕ, List, [], Option, none, some, ◌>>=◌}
use lobsimulater.Types.{Timestamp}
use lobsimulater.Double.{Double}
use lobsimulater.Csv.{Numbers, load_buffer}
use lobsimulater.Csv.Replay.{timed}
use lobsimulater.Backtester.{Event, Backtester, add_strategy, run_source}
use lobsimulater.Strategies.{Strategy, MarketMaker, market_maker, strategy_hooks}
use lobsimulater.Signals.Calculators.{SignalGenerator, default_backtester}
use lobsimulater.Signals.Calculators.Engine.{engine}

-- The constructor of `CSVDataSource`, which calls `reset`.
unfoldable pub reset : Numbers → Option (List String) → Option (List Event)
reset numbers none = some []
reset numbers (some lines) = load_buffer numbers lines

module _ {D : Type 0} ⦃d : Double D⦄ where
  open d use {literal}

  -- `MarketMakerStrategy()`, with its default arguments, and the draws of `std::rand`.
  abbrev pub new_market_maker : (ℕ → ℕ) → MarketMaker D
  new_market_maker rand = record {
    spread_bps = literal 10 0;
    order_size = literal 100 0;
    max_inventory = literal 1000 0;
    active_orders = [];
    rand = rand;
    draws = 0;
  }

  -- The backtester at the call of `run`.
  abbrev pub bench : (ℕ → ℕ) → Backtester D (Strategy D) (SignalGenerator D)
  bench rand = add_strategy (market_maker (new_market_maker rand)) default_backtester

  -- The Sharpe ratio and the maximum drawdown that `main` prints.
  unfoldable pub main :
      Numbers → (ℕ → ℕ) → (ℕ → ℕ) → Timestamp → Option (List String) → Option (D × D)
  main numbers clock rand now file = do
    es ← reset numbers file
    (res, t) ← run_source strategy_hooks (engine now) (some (timed clock 0 es)) (bench rand)
    some (res.sharpe, res.max_drawdown)
