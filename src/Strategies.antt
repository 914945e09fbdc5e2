-- ===== src/Strategies.antt =====
-- The example strategies (include/lob/backtester.hpp, src/backtester.cpp): `MarketMakerStrategy` and
-- `MomentumStrategy`. The numbers that `std::rand` returns to a market maker in turn are a part of its
-- state, with the count of those that it has drawn.
pub mod Quiet
pub mod History
use lobsimulater.Base.{
  ℕ, ◌+◌, ◌-◌, ℤ, pos, ltb_ℤ, List, [], ◌∷◌, ◌++◌, map, Bool, if◌then◌else◌, length, max,
  Dictionary, insert,
}
use lobsimulater.Types.{bid, ask, Order, OrderId, new_order, Quantity, Execution, MarketDataUpdate}
use lobsimulater.Book.{OrderBook}
use lobsimulater.Stats.{get_mid_price}
use lobsimulater.Double.{Double, nought, of_ℕ, abs_of, double_to_price}
use lobsimulater.Metrics.{accumulate, square, back}
use lobsimulater.Portfolio.{Portfolio}
use lobsimulater.Backtester.{Hooks}
use lobsimulater.Signals.Stateless.{to_quantity}

pub record MarketMaker (D : Type 0) : Type 0 where
  pub spread_bps : D
  pub order_size : D
  pub max_inventory : D
  pub active_orders : Dictionary Order
  pub rand : ℕ → ℕ
  pub draws : ℕ

pub record Momentum (D : Type 0) : Type 0 where
  pub lookback_periods : ℤ
  pub entry_z_score : D
  pub exit_z_score : D
  pub price_history : List D
  pub in_position : Bool

-- An example strategy.
pub data Strategy (D : Type 0) : Type 0 where
  market_maker : MarketMaker D → Strategy D
  momentum : Momentum D → Strategy D

-- `if (static_cast<int>(xs.size()) > n) xs.pop_front();`, for a size that fits an `int`, on a deque that
-- has just been added to.
abbrev pub pop_over {ℓ} : {A : Type ℓ} → ℤ → List A → List A
pop_over n [] = []
pop_over n (x ∷ xs) = if ltb_ℤ n (pos (length (x ∷ xs))) then xs else x ∷ xs

module _ {D : Type 0} ⦃d : Double D⦄ where
  open d use {literal, add, sub, mul, div, lt, eq, sqrt}

  -- The two quotes around a mid price.
  abbrev pub bid_quote : OrderId → D → MarketMaker D → Order
  bid_quote i mid s =
      let tick_px = mul mid (mul s.spread_bps (literal 1 4)) in
      new_order i (double_to_price (sub (sub mid tick_px) nought)) (to_quantity s.order_size) bid 0

  abbrev pub ask_quote : OrderId → D → MarketMaker D → Order
  ask_quote i mid s =
      let tick_px = mul mid (mul s.spread_bps (literal 1 4)) in
      new_order i (double_to_price (add (add mid tick_px) nought)) (to_quantity s.order_size) ask 0

  unfoldable pub cancel_all_orders : MarketMaker D → MarketMaker D
  cancel_all_orders s = record s { active_orders = [] }

  unfoldable pub update_quotes : OrderBook → MarketMaker D → MarketMaker D
  update_quotes book s =
      let mid = (get_mid_price book).0 in
      let idb : OrderId = 100000 + s.rand s.draws in
      let ida : OrderId = 200000 + s.rand (s.draws + 1) in
      let quoted : MarketMaker D = record s {
        active_orders = insert ida (ask_quote ida mid s) (insert idb (bid_quote idb mid s) []);
        draws = s.draws + 2;
      } in
      if eq mid nought then s else quoted

  unfoldable pub generate_orders : MarketMaker D → List Order
  generate_orders s = map (λ x. x.1) s.active_orders

  -- `MomentumStrategy::onMarketData`.
  unfoldable pub observe : OrderBook → Momentum D → Momentum D
  observe book s =
      let mid = (get_mid_price book).0 in
      if lt nought mid
      then record s { price_history = pop_over s.lookback_periods (s.price_history ++ (mid ∷ [])) }
      else s

  -- The score of the last price, on a history that is long enough. On an empty history the deviation
  -- is 0, and so the score is.
  abbrev pub momentum_score : List D → D
  momentum_score [] = nought
  momentum_score (p ∷ ps) =
      let mean = div (accumulate (λ x. x) nought (p ∷ ps)) (of_ℕ (length (p ∷ ps))) in
      let ss = accumulate (λ x. square (sub x mean)) nought (p ∷ ps) in
      let s = sqrt (div ss (of_ℕ (max 1 (length (p ∷ ps) - 1)))) in
      if lt nought s then div (sub (back p ps) mean) s else nought

  unfoldable pub calculate_z_score : Momentum D → D
  calculate_z_score s =
      if ltb_ℤ (pos (length s.price_history)) s.lookback_periods
      then nought
      else momentum_score s.price_history

  unfoldable pub should_enter_long : Momentum D → Bool
  should_enter_long s = lt s.entry_z_score (calculate_z_score s)

  unfoldable pub should_exit_position : Momentum D → Bool
  should_exit_position s = lt (abs_of (calculate_z_score s)) s.exit_z_score

  -- The virtual methods of both strategies. `onStart` and `onEnd` are those of `Strategy`, which do
  -- nothing.
  unfoldable pub hear_market_data : OrderBook → Strategy D → Portfolio D → Strategy D × Portfolio D
  hear_market_data book (market_maker s) f = (market_maker (update_quotes book s), f)
  hear_market_data book (momentum s) f = (momentum (observe book s), f)

  unfoldable pub hear_signal : OrderBook → Strategy D → Portfolio D → Strategy D × Portfolio D
  hear_signal book (market_maker s) f = (market_maker (update_quotes book s), f)
  hear_signal book (momentum s) f = (momentum s, f)

  unfoldable pub hear_fill : Execution → Strategy D → Portfolio D → Strategy D × Portfolio D
  hear_fill x s f = (s, f)

  abbrev pub strategy_hooks : {X : Type 0} → Hooks D (Strategy D) X
  strategy_hooks = record {
    on_market_data = λ u b s f. hear_market_data b s f;
    on_signal = λ x b s f. hear_signal b s f;
    on_fill = hear_fill;
    on_start = λ s. s;
    on_end = λ f s. s;
  }
