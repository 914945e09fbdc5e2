-- ===== src/Signals/Flow.antt =====
-- `TradeFlowSignal` (src/signals.cpp).
pub mod Aggressor
use lobsimulater.Base.{
  ℕ, ℤ, List, [], ◌∷◌, ◌++◌, Option, some, if◌then◌else◌, ◌==◌, ◌>>=◌, set_named,
}
use lobsimulater.Types.{Side, bid, ask, Execution, Price, Quantity, Timestamp, same_side}
use lobsimulater.Book.{OrderBook}
use lobsimulater.Double.{Double, nought, of_ℕ, max_of, price_to_double}
use lobsimulater.Metrics.{accumulate}
use lobsimulater.Signals.{Signal, trade_flow, new_signal, trim}

pub record Trade : Type 0 where
  pub timestamp : Timestamp
  pub price : Price
  pub quantity : Quantity
  pub aggressor_side : Side

pub record TradeFlow (D : Type 0) : Type 0 where
  pub lookback_trades : ℤ
  pub decay_factor : D
  pub recent_trades : List Trade
  pub buy_volume : D
  pub sell_volume : D

abbrev pub aggressor : Execution → Side
aggressor e = if e.bid_id == 0 then bid else if e.ask_id == 0 then ask else bid

abbrev pub trade_of : Execution → Trade
trade_of e = record {
  timestamp = e.timestamp;
  price = e.price;
  quantity = e.quantity;
  aggressor_side = aggressor e;
}

module _ {D : Type 0} ⦃d : Double D⦄ where
  open d use {literal, add, sub, mul, div, lt}

  abbrev pub new_flow : ℤ → D → TradeFlow D
  new_flow lookback decay = record {
    lookback_trades = lookback;
    decay_factor = decay;
    recent_trades = [];
    buy_volume = nought;
    sell_volume = nought;
  }

  -- The volumes, of which both decay and one grows.
  unfoldable pub add_volume : Side → Quantity → TradeFlow D → TradeFlow D
  add_volume aggr q c =
      let buy = mul c.buy_volume c.decay_factor in
      let sell = mul c.sell_volume c.decay_factor in
      if same_side aggr bid
      then record c { buy_volume = add buy (of_ℕ q); sell_volume = sell }
      else record c { buy_volume = buy; sell_volume = add sell (of_ℕ q) }

  unfoldable pub on_trade : Execution → TradeFlow D → Option (TradeFlow D)
  on_trade e c = do
    kept ← trim c.lookback_trades (c.recent_trades ++ (trade_of e ∷ []))
    some (add_volume (aggressor e) e.quantity (record c { recent_trades = kept }))

  unfoldable pub get_vwap : TradeFlow D → D
  get_vwap c =
      let pv =
        accumulate (λ t. mul (price_to_double t.price) (of_ℕ t.quantity)) nought c.recent_trades in
      let v = accumulate (λ (t : Trade). of_ℕ t.quantity) nought c.recent_trades in
      if lt nought v then div pv v else nought

  unfoldable pub reset_flow : TradeFlow D → TradeFlow D
  reset_flow c = record c { recent_trades = []; buy_volume = nought; sell_volume = nought }

  unfoldable pub flow_signal : TradeFlow D → OrderBook → Timestamp → Signal D
  flow_signal c book now =
      let tf =
        div (sub c.buy_volume c.sell_volume)
          (max_of (literal 1 0) (add c.buy_volume c.sell_volume)) in
      record (new_signal trade_flow book.symbol tf (literal 1 0) now) {
        metadata =
            set_named "sell_vol" c.sell_volume
              (set_named "buy_vol" c.buy_volume (set_named "vwap" (get_vwap c) []));
      }
