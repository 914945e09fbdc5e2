-- ===== src/Book.antt =====
-- `class OrderBook` (include/lob/order_book.hpp, src/order_book.cpp): the state, and the operations
-- that add, modify and cancel orders. A method returns its result with the book after it; `none` is
-- a fault, the read through a pointer that points nowhere. The time that a call takes by the clock
-- is its argument `elapsed`.
pub mod Invariant
pub mod Add
pub mod Change
pub mod Cancel
use Prim.Native.String.{String}
use lobsimulater.Base.{
  ℕ, ◌+◌, ◌≡◌, refl, List, [], ◌∷◌, Option, none, some, Bool, true, false, if◌then◌else◌, ltb,
  ◌>>=◌, is_empty, pos, lookup, insert, erase,
}
use lobsimulater.Types.{Side, bid, ask, Order, OrderId, Price, Quantity, add64}
use lobsimulater.Level
use lobsimulater.Level.{PriceLevel, find_order, new_level}
use lobsimulater.Levels.{Levels, LevelRef, find_level, put_level, erase_level}
use lobsimulater.Levels.Index.{Orders}

pub record Metrics : Type 0 where
  pub orders_added : ℕ
  pub orders_modified : ℕ
  pub orders_canceled : ℕ
  pub orders_matched : ℕ
  pub total_volume : ℕ
  pub total_latency : ℕ

abbrev pub no_metrics : Metrics
no_metrics = record {
  orders_added = 0;
  orders_modified = 0;
  orders_canceled = 0;
  orders_matched = 0;
  total_volume = 0;
  total_latency = 0;
}

pub record OrderBook : Type 0 where
  pub symbol : String
  pub orders : Orders
  pub bid_levels : Levels
  pub ask_levels : Levels
  pub cached_best_bid : Price
  pub cached_best_ask : Price
  pub cache_valid : Bool
  pub metrics : Metrics

-- `OrderBook(symbol)`.
unfoldable pub new_book : String → OrderBook
new_book name = record {
  symbol = name;
  orders = [];
  bid_levels = [];
  ask_levels = [];
  cached_best_bid = pos 0;
  cached_best_ask = pos 0;
  cache_valid = false;
  metrics = no_metrics;
}

-- `(side == Side::BID) ? bid_levels_ : ask_levels_`, to read and to write.
unfoldable pub levels_of : Side → OrderBook → Levels
levels_of bid b = b.bid_levels
levels_of ask b = b.ask_levels

unfoldable pub with_levels : Side → Levels → OrderBook → OrderBook
with_levels bid m b = record b { bid_levels = m }
with_levels ask m b = record b { ask_levels = m }

abbrev pub invalidate_cache : OrderBook → OrderBook
invalidate_cache b = record b { cache_valid = false }

unfoldable pub get_or_create_level : Price → Side → OrderBook → PriceLevel × OrderBook
get_or_create_level p s b = elim (find_level p (levels_of s b)) [
  | some l ↦ (l, b)
  | none ↦ let l = new_level p s in (l, with_levels s (put_level s p l (levels_of s b)) b)
]

unfoldable pub remove_empty_level : Price → Side → OrderBook → OrderBook
remove_empty_level p s b = with_levels s (erase_level p (levels_of s b)) b

-- A write through a pointer to the level of a side at a price.
unfoldable pub store_level : Side → Price → PriceLevel → OrderBook → OrderBook
store_level s p l b = with_levels s (put_level s p l (levels_of s b)) b

-- `order->level` and `*order`, for the pointer that the index holds for an id.
unfoldable pub deref : OrderId → LevelRef → OrderBook → Option (PriceLevel × Order)
deref i r b = do
  level ← find_level r.price (levels_of r.side b)
  order ← find_order i level.queue
  some (level, order)

-- `addOrder`, past the check for a duplicate.
unfoldable pub enter_order : Order → ℕ → OrderBook → OrderBook
enter_order o elapsed b =
    let (level, b1) = get_or_create_level o.price o.side b in
    let b2 = store_level o.side o.price (Level.add_order level o) b1 in
    record b2 {
      orders = insert o.id (record { side = o.side; price = o.price }) b2.orders;
      metrics = record b2.metrics {
        orders_added = add64 b2.metrics.orders_added 1;
        total_latency = b2.metrics.total_latency + elapsed;
      };
      cache_valid = false;
    }

unfoldable pub add_order : Order → ℕ → OrderBook → OrderBook × Bool
add_order o elapsed b = elim (lookup o.id b.orders) [
  | some _ ↦ (b, false)
  | none ↦ (enter_order o elapsed b, true)
]

-- The level of a modified order: a larger quantity moves the order to the back of the queue.
unfoldable pub requeue : PriceLevel → Order → Quantity → PriceLevel
requeue level order new_quantity =
    if ltb order.remaining_quantity new_quantity
    then Level.add_order (Level.remove_order level order)
        (record order { remaining_quantity = new_quantity; quantity = new_quantity })
    else Level.modify_order level order new_quantity

unfoldable pub modify_order : OrderId → Quantity → ℕ → OrderBook → Option (OrderBook × Bool)
modify_order i new_quantity elapsed b = elim (lookup i b.orders) [
  | none ↦ some (b, false)
  | some r ↦ do
    (level, order) ← deref i r b
    let b1 = store_level r.side r.price (requeue level order new_quantity) b
    some (
      record b1 {
        metrics = record b1.metrics {
          orders_modified = add64 b1.metrics.orders_modified 1;
          total_latency = b1.metrics.total_latency + elapsed;
        };
        cache_valid = false;
      },
      true,
    )
]

-- A level that has lost an order, written back, or removed from its map if it is empty.
unfoldable pub settle_level : LevelRef → PriceLevel → OrderBook → OrderBook
settle_level r level b =
    if is_empty level.queue
    then remove_empty_level level.price level.side b
    else store_level r.side r.price level b

unfoldable pub cancel_order : OrderId → ℕ → OrderBook → Option (OrderBook × Bool)
cancel_order i elapsed b = elim (lookup i b.orders) [
  | none ↦ some (b, false)
  | some r ↦ do
    (level, order) ← deref i r b
    let b1 = settle_level r (Level.remove_order level order) b
    some (
      record b1 {
        orders = erase i b1.orders;
        metrics = record b1.metrics {
          orders_canceled = add64 b1.metrics.orders_canceled 1;
          total_latency = b1.metrics.total_latency + elapsed;
        };
        cache_valid = false;
      },
      true,
    )
]

unfoldable pub clear : OrderBook → OrderBook
clear b = record b { orders = []; bid_levels = []; ask_levels = []; cache_valid = false }

unfoldable pub reset_metrics : OrderBook → OrderBook
reset_metrics b = record b { metrics = no_metrics }
