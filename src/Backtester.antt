-- ===== src/Backtester.antt =====
-- `class Backtester` (include/lob/backtester.hpp, src/backtester.cpp): events change the books, the
-- portfolio and the strategies. `none` is a fault, the read of an optional payload that is not there.
-- Strategies and the signal generator are known by their interfaces.
mod State
pub mod Books
pub mod Fills
pub mod Days
unfoldable pub use State.*
use Prim.Native.String.{String}
use lobsimulater.Base.{
  ℕ, ◌+◌, ℤ, pos, negate, List, [], ◌∷◌, ◌++◌, map, Option, none, some, Bool, if◌then◌else◌, ◌==◌,
  ◌>>=◌, Named, find_named, set_named,
}
use lobsimulater.Types.{
  Side, Order, OrderType, limit, market, stop, stop_limit, Quantity, Timestamp, Execution,
  new_order, MarketDataUpdate, UpdateType, add_order, modify_order, cancel_order, trade, clear,
  snapshot, add64,
}
use lobsimulater.Book
use lobsimulater.Book.{OrderBook, new_book}
use lobsimulater.Market.{process_market_order}
use lobsimulater.Stats.{get_mid_price}
use lobsimulater.Double.{Double, nought, price_to_double}
use lobsimulater.Portfolio.{
  Portfolio, Snapshot, new_portfolio, set_commission_rate, trade_position, take_snapshot,
}
use lobsimulater.Metrics.{BacktestResult, Series, blank_result, compute_metrics}

-- `getOrCreateOrderBook`; the new book enters the map when it is written.
abbrev pub book_at : String → Named OrderBook → OrderBook
book_at sym books = elim (find_named sym books) [ some b ↦ b | none ↦ new_book sym ]

-- The switch of `processMarketData`.
unfoldable pub update_book : UpdateType → MarketDataUpdate → ℕ → OrderBook → Option OrderBook
update_book add_order u elapsed b =
    some (Book.add_order (new_order u.order_id u.price u.quantity u.side u.timestamp) elapsed b).0
update_book modify_order u elapsed b = do
  (b', ok) ← Book.modify_order u.order_id u.quantity elapsed b
  some b'
update_book cancel_order u elapsed b = do (b', ok) ← Book.cancel_order u.order_id elapsed b; some b'
update_book trade u elapsed b = some b
update_book clear u elapsed b = some (Book.clear b)
update_book snapshot u elapsed b = some b

-- One call for each strategy, in order, on the same portfolio.
unfoldable pub each : {S P : Type 0} → (S → P → S × P) → List S → P → List S × P
each f [] pf = ([], pf)
each f (s ∷ ss) pf = let (s', pf1) = f s pf in let (ss', pf2) = each f ss pf1 in (s' ∷ ss', pf2)

module _ {D S G X : Type 0} ⦃d : Double D⦄ (hooks : Hooks D S X) (gen : Generator G X) where
  unfoldable pub process_market_data : Event → ℕ → Backtester D S G → Option (Backtester D S G)
  process_market_data e elapsed t = do
    u ← e.market_update
    book ← update_book u.type u elapsed (book_at e.symbol t.order_books)
    let (mid, book') = get_mid_price book
    generator ← gen.update book' t.signal_generator
    let (ss, pf) = each (hooks.on_market_data u book') t.strategies t.portfolio
    some (record t {
      order_books = set_named e.symbol book' t.order_books;
      current_prices = set_named e.symbol mid t.current_prices;
      signal_generator = generator;
      strategies = ss;
      portfolio = pf;
      perf_stats = record t.perf_stats { events_processed = add64 t.perf_stats.events_processed 1 };
    })

  -- For each signal, each strategy.
  unfoldable pub send_signals : OrderBook → List X → List S → Portfolio D → List S × Portfolio D
  send_signals book [] ss pf = (ss, pf)
  send_signals book (x ∷ xs) ss pf =
      let (ss1, pf1) = each (hooks.on_signal x book) ss pf in send_signals book xs ss1 pf1

  unfoldable pub process_signal : Event → Backtester D S G → Backtester D S G
  process_signal e t =
      let book = book_at e.symbol t.order_books in
      let (signals, gen') = gen.generate_signals book t.signal_generator in
      let (ss, pf) = send_signals book signals t.strategies t.portfolio in
      record t {
        order_books = set_named e.symbol book t.order_books;
        signal_generator = gen';
        strategies = ss;
        portfolio = pf;
      }

  -- `buy_fill ? quantity : -quantity`.
  abbrev pub signed_fill : Execution → ℤ
  signed_fill ex = if ex.bid_id == 0 then negate (pos ex.quantity) else pos ex.quantity

  -- `processFill`, past the read of the payload.
  unfoldable pub apply_fill : String → Execution → Backtester D S G → Backtester D S G
  apply_fill sym ex t =
      let (ss, pf) =
        each (hooks.on_fill ex) t.strategies
          (trade_position sym (signed_fill ex) (price_to_double ex.price) t.portfolio) in
      record t {
        strategies = ss;
        portfolio = pf;
        perf_stats = record t.perf_stats { orders_filled = add64 t.perf_stats.orders_filled 1 };
      }

  unfoldable pub process_fill : Event → Backtester D S G → Option (Backtester D S G)
  process_fill e t = do ex ← e.execution; some (apply_fill e.symbol ex t)

  unfoldable pub apply_fills : String → List Execution → Backtester D S G → Backtester D S G
  apply_fills sym [] t = t
  apply_fills sym (ex ∷ exs) t = apply_fills sym exs (apply_fill sym ex t)

  abbrev pub count_order : Backtester D S G → Backtester D S G
  count_order t = record t {
    perf_stats = record t.perf_stats { orders_sent = add64 t.perf_stats.orders_sent 1 };
  }

  -- `processOrder`, by the type of the order: a market order trades, any other rests.
  unfoldable pub place_order : OrderType → Order → Event → ℕ → Backtester D S G → Backtester D S G
  place_order market o e elapsed t =
      let (book, execs) =
        process_market_order o.side o.quantity e.timestamp (book_at e.symbol t.order_books) in
      apply_fills e.symbol execs (record t { order_books = set_named e.symbol book t.order_books })
  place_order _ o e elapsed t =
      let book =
        (Book.add_order (record o { timestamp = e.timestamp }) elapsed
          (book_at e.symbol t.order_books)).0 in
      record t { order_books = set_named e.symbol book t.order_books }

  unfoldable pub process_order : Event → ℕ → Backtester D S G → Option (Backtester D S G)
  process_order e elapsed t = do o ← e.order; some (count_order (place_order o.type o e elapsed t))

  unfoldable pub update_metrics : Timestamp → Backtester D S G → Backtester D S G
  update_metrics ts t = record t {
    portfolio_history = t.portfolio_history ++ (take_snapshot ts t.current_prices t.portfolio ∷ []);
  }

  -- The switch of `run` and of `processEvent`.
  unfoldable pub dispatch : EventType → Event → ℕ → Backtester D S G → Option (Backtester D S G)
  dispatch market_data e elapsed t = process_market_data e elapsed t
  dispatch signal e elapsed t = some (process_signal e t)
  dispatch order e elapsed t = process_order e elapsed t
  dispatch fill e elapsed t = process_fill e t
  dispatch end_of_day e elapsed t = some (update_metrics e.timestamp t)

  unfoldable pub process_event : Event → ℕ → Backtester D S G → Option (Backtester D S G)
  process_event e elapsed t = dispatch e.type e elapsed t

  -- `while (data_source_->hasNext())`, over the events of the source with the time that each takes.
  unfoldable pub process_events : List (Event × ℕ) → Backtester D S G → Option (Backtester D S G)
  process_events [] t = some t
  process_events ((e, elapsed) ∷ es) t = do t' ← process_event e elapsed t; process_events es t'

  -- `run` on a backtester with a data source. What it returns is the `last_result` of its state; it
  -- records no trades.
  unfoldable pub run : List (Event × ℕ) → Backtester D S G → Option (Backtester D S G)
  run es t = do
    t' ←
        process_events es
          (record t { strategies = map hooks.on_start t.strategies; portfolio_history = [] })
    some (finish hooks t')

  -- `run` with its test of `data_source_`, and what it returns.
  unfoldable pub run_source :
      Option (List (Event × ℕ)) → Backtester D S G → Option (BacktestResult D × Backtester D S G)
  run_source none t = some (blank_result, t)
  run_source (some es) t = do t' ← run es t; some (t'.last_result, t')
