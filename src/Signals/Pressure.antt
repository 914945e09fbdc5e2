-- ===== src/Signals/Pressure.antt =====
-- `BookPressureSignal` (src/signals.cpp).
pub mod Touch
use lobsimulater.Base.{
  ℕ, ℤ, pos, ◌-ℤ◌, ltb_ℤ, List, [], ◌∷◌, ◌++◌, Option, some, if◌then◌else◌, ◌||◌, ◌>>=◌, set_named,
}
use lobsimulater.Types.{Side, bid, ask, Order, Price, Quantity, Timestamp, same_side, same_price}
use lobsimulater.Book.{OrderBook}
use lobsimulater.Queries.{get_best_bid, get_best_ask, get_aggregated_book}
use lobsimulater.Portfolio.{blank_order}
use lobsimulater.Double.{Double, nought}
use lobsimulater.Signals.{Signal, book_pressure, new_signal, trim}

pub record PressureEvent (D : Type 0) : Type 0 where
  pub timestamp : Timestamp
  pub side : Side
  pub aggression_score : D

pub record BookPressure (D : Type 0) : Type 0 where
  pub lookback_events : ℤ
  pub recent_events : List (PressureEvent D)

abbrev pub max_ℤ : ℤ → ℤ → ℤ
max_ℤ a b = if ltb_ℤ a b then b else a

-- The `spread` of `calculateAggression`, and the divisor that it makes of it.
abbrev pub quoted_spread : OrderBook → ℤ
quoted_spread book =
    let best_bid = (get_best_bid book).0 in
    let best_ask = (get_best_ask book).0 in
    if same_price best_bid (pos 0) || same_price best_ask (pos 0)
    then pos 1
    else best_ask -ℤ best_bid

abbrev pub touch_spread : OrderBook → ℤ
touch_spread book = max_ℤ (pos 1) (quoted_spread book)

module _ {D : Type 0} ⦃d : Double D⦄ where
  open d use {literal, of_ℤ, add, sub, div}

  abbrev pub new_pressure : ℤ → BookPressure D
  new_pressure lookback = record { lookback_events = lookback; recent_events = [] }

  unfoldable pub calculate_aggression : Side → Price → OrderBook → D
  calculate_aggression bid price book =
      div (of_ℤ (price -ℤ (get_best_bid book).0)) (of_ℤ (touch_spread book))
  calculate_aggression ask price book =
      div (of_ℤ ((get_best_ask book).0 -ℤ price)) (of_ℤ (touch_spread book))

  -- The event of one side: an order at its best price, if it has one.
  abbrev pub pressure_events : Side → List (Price × Quantity) → OrderBook → List (PressureEvent D)
  pressure_events s [] book = []
  pressure_events s ((p, q) ∷ xs) book =
      let tmp = record blank_order { side = s; price = p; timestamp = 0 } in
      record {
        timestamp = 0;
        side = s;
        aggression_score = calculate_aggression tmp.side tmp.price book;
      }
      ∷ []

  unfoldable pub update_pressure : OrderBook → BookPressure D → Option (BookPressure D)
  update_pressure book c = do
    let bids = get_aggregated_book bid 1 book
    let asks = get_aggregated_book ask 1 book
    kept ←
        trim c.lookback_events
          ((c.recent_events ++ pressure_events bid bids book) ++ pressure_events ask asks book)
    some (record c { recent_events = kept })

  -- `for (auto& e: recent_events_) if (e.side == …) s += e.aggression_score;`
  unfoldable pub pressure_of : Side → D → List (PressureEvent D) → D
  pressure_of side s [] = s
  pressure_of side s (e ∷ es) =
      pressure_of side (if same_side e.side side then add s e.aggression_score else s) es

  unfoldable pub get_buy_pressure : BookPressure D → D
  get_buy_pressure c = pressure_of bid nought c.recent_events

  unfoldable pub get_sell_pressure : BookPressure D → D
  get_sell_pressure c = pressure_of ask nought c.recent_events

  unfoldable pub get_net_pressure : BookPressure D → D
  get_net_pressure c = sub (get_buy_pressure c) (get_sell_pressure c)

  unfoldable pub reset_pressure : BookPressure D → BookPressure D
  reset_pressure c = record c { recent_events = [] }

  unfoldable pub pressure_signal : BookPressure D → OrderBook → Timestamp → Signal D
  pressure_signal c book now =
      let net = sub (get_buy_pressure c) (get_sell_pressure c) in
      record (new_signal book_pressure book.symbol net (literal 1 0) now) {
        metadata =
            set_named "sell_pressure" (get_sell_pressure c)
              (set_named "buy_pressure" (get_buy_pressure c) []);
      }
