-- ===== src/Queries.antt =====
-- The queries of `class OrderBook` that need no floating point (include/lob/order_book.hpp,
-- src/order_book.cpp). The cached best prices are `mutable`: a query returns the book with its caches
-- as well. A number of levels is not negative.
pub mod Cache
pub mod Depth
pub mod Position
use lobsimulater.Base.{
  ℕ, suc, ◌+◌, List, [], ◌∷◌, Option, none, some, Bool, true, if◌then◌else◌, ltb, ◌==◌, ◌>>=◌, pos,
  lookup, length,
}
use lobsimulater.Types.{Side, bid, ask, Order, OrderId, Price, Quantity, add32}
use lobsimulater.Level.{PriceLevel, find_order}
use lobsimulater.Levels.{Levels, find_level}
use lobsimulater.Book.{OrderBook, levels_of, deref}

-- `levels.empty() ? 0 : levels.begin()->first`.
abbrev pub first_price : Levels → Price
first_price [] = pos 0
first_price ((p, l) ∷ m) = p

unfoldable pub update_cache : OrderBook → OrderBook
update_cache b = record b {
  cached_best_bid = first_price b.bid_levels;
  cached_best_ask = first_price b.ask_levels;
  cache_valid = true;
}

-- `if (!cache_valid_) updateCache();`
unfoldable pub refresh_cache : OrderBook → OrderBook
refresh_cache b = if b.cache_valid then b else update_cache b

unfoldable pub get_best_bid : OrderBook → Price × OrderBook
get_best_bid b = let c = refresh_cache b in (c.cached_best_bid, c)

unfoldable pub get_best_ask : OrderBook → Price × OrderBook
get_best_ask b = let c = refresh_cache b in (c.cached_best_ask, c)

-- The pointer that `getOrder` returns, followed; `none` within is `nullptr`.
unfoldable pub get_order : OrderId → OrderBook → Option (Option Order)
get_order i b = elim (lookup i b.orders) [
  | none ↦ some none
  | some r ↦ do (level, order) ← deref i r b; some (some order)
]

-- The loop of `getAggregatedBook`, with the levels that it has counted.
unfoldable pub aggregate_from : ℕ → ℕ → Levels → List (Price × Quantity)
aggregate_from count levels [] = []
aggregate_from count levels ((p, l) ∷ m) =
    let rest = aggregate_from (count + 1) levels m in
    if ltb levels (count + 1) then [] else (p, l.total_quantity) ∷ rest

unfoldable pub get_aggregated_book : Side → ℕ → OrderBook → List (Price × Quantity)
get_aggregated_book s levels b = aggregate_from 0 levels (levels_of s b)

-- The chain of a level, copied.
unfoldable pub get_orders_at_level : Price → Side → OrderBook → List Order
get_orders_at_level p s b = elim (find_level p (levels_of s b)) [ none ↦ [] | some l ↦ l.queue ]

-- `while (current && current != order)`.
unfoldable pub position_from : Quantity → OrderId → List Order → Quantity
position_from position i [] = position
position_from position i (o ∷ os) =
    let rest = position_from (add32 position o.remaining_quantity) i os in
    if o.id == i then position else rest

unfoldable pub get_queue_position : OrderId → OrderBook → Option Quantity
get_queue_position i b = elim (lookup i b.orders) [
  | none ↦ some 0
  | some r ↦ do (level, order) ← deref i r b; some (position_from 0 i level.queue)
]

unfoldable pub order_count : OrderBook → ℕ
order_count b = length b.orders

-- The sum of `total_quantity` over the best levels, as `getOrderImbalance` and `getMicroPrice` add it.
unfoldable pub depth_from : Quantity → ℕ → ℕ → Levels → Quantity
depth_from volume count levels [] = volume
depth_from volume count levels ((p, l) ∷ m) =
    let rest = depth_from (add32 volume l.total_quantity) (count + 1) levels m in
    if ltb levels (count + 1) then volume else rest

-- The sum of `total_quantity` over all levels, as `getStats` adds it.
unfoldable pub total_depth : Quantity → Levels → Quantity
total_depth volume [] = volume
total_depth volume ((p, l) ∷ m) = total_depth (add32 volume l.total_quantity) m
