-- ===== src/Crossing.antt =====
-- `OrderBook::matchOrders` (src/order_book.cpp): while the best bid is not below the best ask, the
-- front orders of the two best levels trade with one another.
pub mod Invariant
pub mod Loops
pub mod Result
pub mod Priority
pub mod Termination
use lobsimulater.Base.{
  ℕ, suc, ◌+◌, List, [], ◌∷◌, ◌++◌, Bool, true, false, not, if◌then◌else◌, ltb, ltb_ℤ, ◌&&◌,
  is_empty, length, loop, min, max,
}
use lobsimulater.Types.{Order, Price, Quantity, Timestamp, Execution}
use lobsimulater.Level.{PriceLevel}
use lobsimulater.Levels.{Levels}
use lobsimulater.Levels.Index.{Orders}
use lobsimulater.Book.{OrderBook, Metrics}
use lobsimulater.Fill.{fill_front, drop_filled, count_fill, front_rests, front_length, drop_front}

-- The variables of the loops.
pub record Crossing : Type 0 where
  pub bids : Levels
  pub asks : Levels
  pub orders : Orders
  pub executions : List Execution
  pub metrics : Metrics

-- The order that came first sets the price.
abbrev pub match_price : Order → Order → Price
match_price b a = if ltb b.timestamp a.timestamp then b.price else a.price

abbrev pub match_execution : Order → Order → Quantity → Execution
match_execution b a q = record {
  bid_id = b.id;
  ask_id = a.id;
  price = match_price b a;
  quantity = q;
  timestamp = max b.timestamp a.timestamp;
}

-- One round of the inner loop, with the front order and the rest of both best levels.
unfoldable pub match_fill :
    Price × PriceLevel
    → Levels
    → Price × PriceLevel
    → Levels
    → List Order
    → List Order
    → Crossing
    → Crossing
match_fill (p, l) m (q, k) n (b ∷ bs) (a ∷ as') c =
    let fill = min b.remaining_quantity a.remaining_quantity in
    record {
      bids = (p, fill_front l b bs fill) ∷ m;
      asks = (q, fill_front k a as' fill) ∷ n;
      orders = drop_filled a fill (drop_filled b fill c.orders);
      executions = c.executions ++ (match_execution b a fill ∷ []);
      metrics = count_fill fill c.metrics;
    }
match_fill x m y n _ _ c = c

unfoldable pub match_front : Levels → Levels → Crossing → Crossing
match_front ((p, l) ∷ m) ((q, k) ∷ n) c = match_fill (p, l) m (q, k) n l.queue k.queue c
match_front _ _ c = c

-- `while (!bid_level->empty() && !ask_level->empty())`.
unfoldable pub match_level : Crossing → Crossing
match_level c =
    loop (λ d. front_rests d.bids && front_rests d.asks) (λ d. match_front d.bids d.asks d)
      (front_length c.bids + front_length c.asks + 1) c

unfoldable pub match_round : Crossing → Crossing
match_round c =
    let d = match_level c in record d { bids = drop_front d.bids; asks = drop_front d.asks }

-- Both sides hold a level, and the best bid is not below the best ask.
abbrev pub crosses : Levels → Levels → Bool
crosses ((p, l) ∷ m) ((q, k) ∷ n) = not (ltb_ℤ l.price k.price)
crosses _ _ = false

unfoldable pub match_sweep : Crossing → Crossing
match_sweep c = loop (λ d. crosses d.bids d.asks) match_round (length c.bids + length c.asks + 1) c

abbrev pub begin_match : OrderBook → Crossing
begin_match b = record {
  bids = b.bid_levels;
  asks = b.ask_levels;
  orders = b.orders;
  executions = [];
  metrics = b.metrics;
}

-- The caches are invalidated only if something was executed.
abbrev pub end_match : Crossing → OrderBook → OrderBook
end_match c b = record b {
  bid_levels = c.bids;
  ask_levels = c.asks;
  orders = c.orders;
  metrics = c.metrics;
  cache_valid = if is_empty c.executions then b.cache_valid else false;
}

unfoldable pub match_orders : OrderBook → OrderBook × List Execution
match_orders b = let c = match_sweep (begin_match b) in (end_match c b, c.executions)
