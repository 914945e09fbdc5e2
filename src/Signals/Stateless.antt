-- ===== src/Signals/Stateless.antt =====
-- The calculators that keep no history (src/signals.cpp): `OrderImbalanceSignal`, `MicropriceSignal` and
-- `QueuePositionSignal`. A number of levels is not negative, and a double that is converted to
-- `Quantity` fits it.
use lobsimulater.Base.{ℕ, ℤ, ◌-ℤ◌, List, [], ◌∷◌, Option, Bool, if◌then◌else◌, length, set_named}
use lobsimulater.Types.{bid, ask, Order, Price, Quantity, Timestamp, to_uint32}
use lobsimulater.Book.{OrderBook}
use lobsimulater.Queries.{get_aggregated_book, get_queue_position}
use lobsimulater.Stats.{get_spread, get_mid_price, get_micro_price, get_order_imbalance}
use lobsimulater.Double.{Double, nought, of_ℕ, min_of, max_of, abs_of}
use lobsimulater.Signals.{Signal, order_imbalance, microprice, queue_position, new_signal, clamp}

pub record OrderImbalance (D : Type 0) : Type 0 where
  pub levels : ℕ
  pub threshold : D

pub record Microprice : Type 0 where
  pub levels : ℕ
  pub use_size_weighting : Bool

pub record FillRateModel (D : Type 0) : Type 0 where
  pub avg_fill_rate_per_ms : D
  pub volatility : D

unfoldable pub get_queue_ahead : Order → OrderBook → Option Quantity
get_queue_ahead o book = get_queue_position o.id book

module _ {D : Type 0} ⦃d : Double D⦄ where
  open d use {literal, of_ℤ, to_ℤ, add, sub, mul, div, neg, lt, exp}

  abbrev pub to_quantity : D → Quantity
  to_quantity x = to_uint32 (to_ℤ x)

  unfoldable pub calculate_imbalance : Quantity → Quantity → D
  calculate_imbalance b a =
      let denom = add (of_ℕ b) (of_ℕ a) in
      if lt nought denom then div (sub (of_ℕ b) (of_ℕ a)) denom else nought

  unfoldable pub get_volume_imbalance : OrderImbalance D → OrderBook → D
  get_volume_imbalance c book = get_order_imbalance c.levels book

  unfoldable pub get_order_count_imbalance : OrderImbalance D → OrderBook → D
  get_order_count_imbalance c book =
      let bids : D = of_ℕ (length (get_aggregated_book bid c.levels book)) in
      let asks : D = of_ℕ (length (get_aggregated_book ask c.levels book)) in
      calculate_imbalance (to_quantity bids) (to_quantity asks)

  -- The sums of `getWeightedImbalance`: each quantity over its distance from the touch and one.
  unfoldable pub weighted_sum : (Price → ℤ) → D → List (Price × Quantity) → D
  weighted_sum distance w [] = w
  weighted_sum distance w ((p, q) ∷ xs) =
      let weight = div (literal 1 0) (add (literal 1 0) (of_ℤ (distance p))) in
      weighted_sum distance (add w (mul weight (of_ℕ q))) xs

  abbrev pub weighted_imbalance : List (Price × Quantity) → List (Price × Quantity) → D
  weighted_imbalance ((best_bid, q) ∷ bids) ((best_ask, r) ∷ asks) =
      calculate_imbalance
        (to_quantity (weighted_sum (λ p. best_bid -ℤ p) nought ((best_bid, q) ∷ bids)))
        (to_quantity (weighted_sum (λ p. p -ℤ best_ask) nought ((best_ask, r) ∷ asks)))
  weighted_imbalance _ _ = nought

  unfoldable pub get_weighted_imbalance : OrderImbalance D → OrderBook → D
  get_weighted_imbalance c book =
      weighted_imbalance (get_aggregated_book bid c.levels book)
        (get_aggregated_book ask c.levels book)

  unfoldable pub imbalance_signal : OrderImbalance D → OrderBook → Timestamp → Signal D
  imbalance_signal c book now =
      let vimb = get_volume_imbalance c book in
      record (new_signal order_imbalance book.symbol vimb (literal 1 0) now) {
        metadata =
            set_named "count_imbalance" (get_order_count_imbalance c book)
              (set_named "weighted_imbalance" (get_weighted_imbalance c book) []);
        confidence = min_of (literal 1 0) (div (abs_of vimb) (max_of (literal 1 6) c.threshold));
      }

  unfoldable pub get_simple_microprice : OrderBook → D
  get_simple_microprice book = (get_mid_price book).0

  unfoldable pub get_weighted_microprice : Microprice → OrderBook → D
  get_weighted_microprice c book = (get_micro_price c.levels book).0

  unfoldable pub get_depth_weighted_microprice : Microprice → OrderBook → D
  get_depth_weighted_microprice c book =
      let w = if c.use_size_weighting then literal 7 1 else literal 5 1 in
      add (mul w (get_micro_price c.levels book).0)
        (mul (sub (literal 1 0) w) (get_mid_price book).0)

  unfoldable pub microprice_signal : Microprice → OrderBook → Timestamp → Signal D
  microprice_signal c book now =
      let mp =
        if c.use_size_weighting
        then get_weighted_microprice c book
        else get_simple_microprice book in
      record (new_signal microprice book.symbol mp (literal 1 0) now) {
        metadata =
            set_named "spread" (get_spread book).0 (set_named "mid" (get_mid_price book).0 []);
      }

  -- `FillRateModel{}`.
  abbrev pub new_fill_rate_model : FillRateModel D
  new_fill_rate_model = record { avg_fill_rate_per_ms = literal 1 1; volatility = literal 5 2 }

  unfoldable pub get_expected_fill_time : FillRateModel D → Order → D
  get_expected_fill_time model o =
      div (of_ℕ o.remaining_quantity) (max_of (literal 1 6) model.avg_fill_rate_per_ms)

  unfoldable pub get_fill_probability : FillRateModel D → ℤ → D
  get_fill_probability model horizon_ms =
      let lambda = mul model.avg_fill_rate_per_ms (of_ℤ horizon_ms) in
      clamp (sub (literal 1 0) (exp (neg lambda))) (literal 0 0) (literal 1 0)

  unfoldable pub queue_signal : OrderBook → Timestamp → Signal D
  queue_signal book now =
      new_signal queue_position book.symbol (get_order_imbalance 1 book) (literal 1 0) now
