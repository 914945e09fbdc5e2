-- ===== src/Lib.antt =====
-- The limit order book and the backtester around it.
--
-- An `OrderBook` holds the resting orders of one symbol: two maps from price to `PriceLevel`, each level a
-- FIFO queue with counters, an index from order id to order, and cached best prices. `addOrder`,
-- `modifyOrder` and `cancelOrder` change single orders, `processMarketOrder` sweeps one side, and
-- `matchOrders` trades the two sides against each other. The `Backtester` feeds events to its books, hands
-- executions to a `Portfolio`, calls strategies and a signal generator, and computes metrics at the end.
--
-- Files, with the code that they are about:
--   Base       Boolean tests, lists, signed integers over native numbers, `while` loops, dictionaries
--   Types      include/lob/order_book.hpp: Side, OrderType, TimeInForce, Order, Execution,
--              MarketDataUpdate, and arithmetic modulo 2 ^ 32 and 2 ^ 64
--   Level      src/order_book.cpp: PriceLevel::addOrder, removeOrder, modifyOrder
--              (Quantities: counters and queue agree)
--   Heap       the same operations of PriceLevel on linked cells (Linked, Relink and Steps: pointers;
--              Refines: beside the operations on the queue)
--   Levels     the two maps of levels (Order: sorted keys; Index: the map from id to level)
--   Book       src/order_book.cpp: OrderBook::addOrder, modifyOrder, cancelOrder, clear,
--              resetMetrics, and the helpers getOrCreateLevel and removeEmptyLevel
--              (Invariant, and Add, Change and Cancel for what the three operations do)
--   HeapBook   the operations on orders and `clear` on a heap of linked cells, with allocation and free
--              (Find, Places, Owned, Steps and Pointed: the two books side by side; Start, Add, Change
--              and Cancel)
--   Fill       what the two matching loops share (Keeps: what a fill keeps)
--   Market     processMarketOrder (Invariant and Fills, Sides for the ids, Priority for the order of
--              trading, Termination)
--   Crossing   matchOrders (Invariant, Loops and Result, Priority for the order of trading,
--              Termination)
--   HeapMatch  processMarketOrder and matchOrders on that heap (Front, Drop, Empty, Placed and
--              Taken: the best level of a side; Market, Trade and Matching)
--   Queries    getBestBid, getBestAsk, getOrder, getAggregatedBook, getOrdersAtLevel, getQueuePosition,
--              orderCount (Cache, Depth and Position)
--   History    any sequence of public calls on a book, changes (Changes) and queries
--   Double     floating point as an interface, with priceToDouble and doubleToPrice
--   Stats      getSpread, getMidPrice, getMicroPrice, getOrderImbalance, getStats (Values)
--   Metrics    src/metrics.cpp: computeMetrics and what it calls (Drawdown and Bounds: the equity
--              curve)
--   Portfolio  src/backtester.cpp: Position and Portfolio (Net: net positions)
--   Backtester src/backtester.cpp: Backtester (State: its fields; Books: its books; Fills: its fills;
--              Days: its reports)
--   Signals    src/signals.cpp: what the calculators share (Window: the deques that they trim;
--              Stateless, Pressure, Flow and Spread: the calculators; Calculators: SignalGenerator,
--              with Lookup by name and Engine for the backtester;
--              Statistics: SignalStatistics; Features: FeatureExtractor)
--   Strategies src/backtester.cpp: MarketMakerStrategy and MomentumStrategy (History: the prices that
--              the second keeps; Quiet: the portfolio beside them)
--   Csv        src/backtester.cpp: splitCSV, CSVDataSource::parseLine and loadBuffer (Split, Kinds,
--              Replay)
--   Main       src/main.cpp: main (Constant: what it prints for a file without trades)
--   Examples   small books, and the theorems at concrete values
--
-- How the state corresponds:
--   * Prices are integers; overflow of `int64_t` prices is left out. Quantities and counters are natural
--     numbers, and each 32-bit or 64-bit operation on them wraps as it does in C++.
--   * The intrusive list of a level is the list `queue`, front first, and a pointer to an order is its id
--     with the side and the price of its level: following it is a lookup, which is `none` where nothing
--     is there. `modify_order` and `cancel_order` return `none` in that case, and (book, false) for an
--     unknown id.
--   * `Heap` has the cells and pointers of a level, and `HeapBook` the whole book on them: addresses are
--     numbers, 0 is `nullptr`, the heap of orders and that of levels are partial functions, the index
--     and the maps own what they point to, and a fault is `none`.
--   * `std::map` is a list of entries in the order of its comparator. A hash map is an association list
--     in the order of insertion.
--   * A `mutable` cache is state that the query returns. The time that an operation adds to
--     `total_latency` is an argument.
--   * A `while` loop is `loop` on fuel, more than a measure which each round brings down: the number of
--     orders of a level or of levels of a side, and one for a quantity that is not yet 0. The rule
--     `loop_rule` takes that measure, and gives the exit by the loop's own test. `Ends` is
--     the same loop without fuel, as a relation, and `Runs` one whose rounds can fault.
--   * A `double` is any type with the operations of the interface `Double`, of which no law is assumed.
--   * The read of an optional payload that is not there is `none`.
--
-- Not modelled: file input, clock statistics, the parameter map of the base class `Strategy`, bindings,
-- examples, benchmarks and tests. In `Backtester`, strategies and the signal generator are arguments,
-- functions on a state of their own, a book and a portfolio, of which the update of the generator can
-- fault; that their queries fill the caches of the book is left out. Overflow of signed integers and of
-- conversions from `double` is left out.
pub mod Base
pub mod Types
pub mod Level
pub mod Levels
pub mod Heap
pub mod Book
pub mod HeapBook
pub mod Fill
pub mod Market
pub mod Crossing
pub mod HeapMatch
pub mod Queries
pub mod History
pub mod Double
pub mod Stats
pub mod Metrics
pub mod Portfolio
pub mod Backtester
pub mod Signals
pub mod Strategies
pub mod Csv
pub mod Main
pub mod Examples
