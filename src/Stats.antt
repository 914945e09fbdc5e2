-- ===== src/Stats.antt =====
-- The queries of `class OrderBook` in floating point (include/lob/order_book.hpp,
-- src/order_book.cpp): spread, mid price, microprice, imbalance and statistics.
pub mod Values
use lobsimulater.Base.{
  ℕ, ◌+◌, ◌%◌, ◌^◌, List, [], ◌∷◌, Bool, true, false, if◌then◌else◌, ltb, ◌||◌, ◌==◌, pos, ◌+ℤ◌,
  ◌-ℤ◌, is_empty, length,
}
use lobsimulater.Types.{Price, Quantity, same_price, add32, sub32}
use lobsimulater.Levels.{Levels}
use lobsimulater.Book.{OrderBook}
use lobsimulater.Queries.{
  refresh_cache, get_best_bid, get_best_ask, depth_from, total_depth, first_price,
}
use lobsimulater.Double.{Double, of_ℕ, nought, price_to_double}

-- `cached_best_bid_ == 0 || cached_best_ask_ == 0`.
abbrev pub either_zero : OrderBook → Bool
either_zero c = same_price c.cached_best_bid (pos 0) || same_price c.cached_best_ask (pos 0)

module _ {D : Type 0} ⦃d : Double D⦄ where
  open d use {literal, of_ℤ, add, sub, mul, div, lt}

  unfoldable pub get_spread : OrderBook → D × OrderBook
  get_spread b =
      let c = refresh_cache b in
      if either_zero c
      then (nought, c)
      else (div (of_ℤ (c.cached_best_ask -ℤ c.cached_best_bid)) (literal 100 0), c)

  unfoldable pub get_mid_price : OrderBook → D × OrderBook
  get_mid_price b =
      let c = refresh_cache b in
      if either_zero c
      then (nought, c)
      else (div (of_ℤ (c.cached_best_bid +ℤ c.cached_best_ask)) (literal 200 0), c)

  -- `weighted += priceToDouble(price) * level->total_quantity`, over the best levels.
  unfoldable pub weighted_from : D → ℕ → ℕ → Levels → D
  weighted_from acc count levels [] = acc
  weighted_from acc count levels ((p, l) ∷ m) =
      let rest =
        weighted_from (add acc (mul (price_to_double p) (of_ℕ l.total_quantity))) (count + 1) levels
          m in
      if ltb levels (count + 1) then acc else rest

  unfoldable pub get_micro_price : ℕ → OrderBook → D × OrderBook
  get_micro_price levels b =
      let bid_qty = depth_from 0 0 levels b.bid_levels in
      let ask_qty = depth_from 0 0 levels b.ask_levels in
      let all_qty = add32 bid_qty ask_qty in
      let weighted_bid = weighted_from nought 0 levels b.bid_levels in
      let weighted_ask = weighted_from nought 0 levels b.ask_levels in
      if is_empty b.bid_levels || is_empty b.ask_levels
      then (nought, b)
      else if all_qty == 0
      then get_mid_price b
      else (
        add (mul (div (of_ℕ ask_qty) (of_ℕ all_qty)) (div weighted_bid (of_ℕ bid_qty)))
            (mul (div (of_ℕ bid_qty) (of_ℕ all_qty)) (div weighted_ask (of_ℕ ask_qty))),
        b,
      )

  -- The difference is taken in `uint32_t` before it is converted.
  unfoldable pub get_order_imbalance : ℕ → OrderBook → D
  get_order_imbalance levels b =
      let bid_volume = depth_from 0 0 levels b.bid_levels in
      let ask_volume = depth_from 0 0 levels b.ask_levels in
      if add32 bid_volume ask_volume == 0
      then nought
      else div (of_ℕ (sub32 bid_volume ask_volume)) (of_ℕ (add32 bid_volume ask_volume))

pub record BookStats (D : Type 0) : Type 0 where
  pub best_bid : Price
  pub best_ask : Price
  pub bid_volume : Quantity
  pub ask_volume : Quantity
  pub spread : D
  pub mid_price : D
  pub microprice : D
  pub imbalance : D
  pub bid_levels : ℕ
  pub ask_levels : ℕ
  pub total_orders : ℕ

module _ {D : Type 0} ⦃d : Double D⦄ where
  unfoldable pub get_stats : OrderBook → BookStats D × OrderBook
  get_stats b =
      let (spread_now, b1) = get_spread b in
      let (mid_now, b2) = get_mid_price b1 in
      let (micro_now, b3) = get_micro_price 1 b2 in
      (
        record {
          best_bid = first_price b.bid_levels;
          best_ask = first_price b.ask_levels;
          bid_volume = total_depth 0 b.bid_levels;
          ask_volume = total_depth 0 b.ask_levels;
          spread = spread_now;
          mid_price = mid_now;
          microprice = micro_now;
          imbalance = get_order_imbalance 5 b3;
          bid_levels = length b.bid_levels % 2 ^ 32;
          ask_levels = length b.ask_levels % 2 ^ 32;
          total_orders = length b.orders % 2 ^ 32;
        },
        b3,
      )
