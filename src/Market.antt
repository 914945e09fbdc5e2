-- ===== src/Market.antt =====
-- `OrderBook::processMarketOrder` (src/order_book.cpp): a market order sweeps the levels of the
-- opposite side, best price first, and each level's queue from the front.
pub mod Invariant
pub mod Fills
pub mod Sides
pub mod Priority
pub mod Termination
use lobsimulater.Base.{
  ℕ, suc, ◌+◌, ◌-◌, ◌≡◌, List, [], ◌∷◌, ◌++◌, Bool, true, false, not, if◌then◌else◌, ◌==◌, ltb,
  ◌&&◌, is_empty, length, loop, erase, min,
}
use lobsimulater.Types.{
  Side, bid, ask, Order, OrderId, Price, Quantity, Timestamp, Execution, add64, sub32, opposite,
  is_filled,
}
use lobsimulater.Level
use lobsimulater.Level.{PriceLevel, replace_order}
use lobsimulater.Levels.{Levels}
use lobsimulater.Levels.Index.{Orders}
use lobsimulater.Book.{OrderBook, Metrics, levels_of, with_levels}
use lobsimulater.Fill.{fill_front, drop_filled, count_fill, front_rests, front_length, drop_front}

-- The variables of the loops: the levels of the opposite side, the quantity still to fill, and what
-- the rounds change of the book.
pub record Sweep : Type 0 where
  pub levels : Levels
  pub remaining : Quantity
  pub orders : Orders
  pub executions : List Execution
  pub metrics : Metrics

-- `executions.emplace_back(…)`, with 0 for the id of the market order.
abbrev pub market_execution : Side → OrderId → Price → Quantity → Timestamp → Execution
market_execution bid i p q t = record {
  bid_id = 0;
  ask_id = i;
  price = p;
  quantity = q;
  timestamp = t;
}
market_execution ask i p q t = record {
  bid_id = i;
  ask_id = 0;
  price = p;
  quantity = q;
  timestamp = t;
}

-- One round of the inner loop, on the front order of the best level.
unfoldable pub market_fill : Side → Timestamp → Levels → Sweep → Sweep
market_fill side ts [] t = t
market_fill side ts ((p, l) ∷ m) t = elim l.queue [
  | [] ↦ t
  | o ∷ os ↦
      let fill = min t.remaining o.remaining_quantity in
      record {
        levels = (p, fill_front l o os fill) ∷ m;
        remaining = sub32 t.remaining fill;
        orders = drop_filled o fill t.orders;
        executions = t.executions ++ (market_execution side o.id p fill ts ∷ []);
        metrics = count_fill fill t.metrics;
      }
]

-- `while (remaining > 0 && !level->empty())`.
unfoldable pub market_level : Side → Timestamp → Sweep → Sweep
market_level side ts t =
    loop (λ u. ltb 0 u.remaining && front_rests u.levels) (λ u. market_fill side ts u.levels u)
      (front_length t.levels + 2) t

-- One round of the outer loop.
unfoldable pub market_round : Side → Timestamp → Sweep → Sweep
market_round side ts t = let u = market_level side ts t in record u { levels = drop_front u.levels }

-- `while (remaining > 0 && !opposite_levels.empty())`.
unfoldable pub market_sweep : Side → Timestamp → Sweep → Sweep
market_sweep side ts t =
    loop (λ u. ltb 0 u.remaining && not (is_empty u.levels)) (market_round side ts)
      (length t.levels + 2) t

-- The loops' variables at the start, and the book that they leave.
abbrev pub begin_sweep : Side → Quantity → OrderBook → Sweep
begin_sweep side quantity b = record {
  levels = levels_of (opposite side) b;
  remaining = quantity;
  orders = b.orders;
  executions = [];
  metrics = b.metrics;
}

abbrev pub end_sweep : Side → Sweep → OrderBook → OrderBook
end_sweep side t b = record (with_levels (opposite side) t.levels b) {
  orders = t.orders;
  metrics = t.metrics;
  cache_valid = false;
}

unfoldable pub process_market_order :
    Side → Quantity → Timestamp → OrderBook → OrderBook × List Execution
process_market_order side quantity ts b =
    let t = market_sweep side ts (begin_sweep side quantity b) in (end_sweep side t b, t.executions)
