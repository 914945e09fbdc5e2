-- ===== src/Examples/Trading.antt =====
-- The theorems on statistics, portfolio and backtester at small concrete values.

use text.Mathlib.Text.{◌==◌ as str_eq}
use lobsimulater.Base.{
  ℕ, ℤ, ◌+◌, ◌-◌, ◌%◌, ◌^◌, ◌≡◌, ◌+ℤ◌, ◌-ℤ◌, refl, pos, List, [], ◌∷◌, some, none, if◌then◌else◌,
  arith, All, min, take, leb, ◌==◌, Named, set_named, find_named,
}
use lobsimulater.Types.{bid, market, Order, new_order, MarketDataUpdate, add_order}
use lobsimulater.Levels.{side_volume}
use lobsimulater.Book.{OrderBook}
use lobsimulater.Double.{Double, of_ℕ, nought}
use lobsimulater.Stats.{get_order_imbalance, get_stats}
use lobsimulater.Stats.Values.{spread_of, mid_of, get_order_imbalance_lem, get_stats_lem}
use lobsimulater.Portfolio.{Portfolio, new_portfolio, trade_position, get_net_position}
use lobsimulater.Portfolio.Net.{trade_position-get_net_position}
use lobsimulater.Backtester.{
  run, Event, market_data, order, Hooks, Generator, Backtester, book_at, place_order, run,
}
use lobsimulater.Metrics.{blank_result}
use lobsimulater.Backtester.Books.{AllSound, set_named-AllSound, Carries, Steady, run-AllSound}
use lobsimulater.Backtester.Fills.{place_order-market_buy}
use lobsimulater.Examples.{
  whole, two_asks, two_asks-Inv, two_asks-CacheInv, two_asks-Sound, two_asks_depth,
}

get_stats_lem_example :
    let stats = (get_stats {D = ℤ} two_asks).0 in
    (stats.bid_volume ≡ side_volume two_asks.bid_levels % 2 ^ 32)
    × (stats.ask_volume ≡ side_volume two_asks.ask_levels % 2 ^ 32)
    × (stats.spread ≡ spread_of stats.best_bid stats.best_ask)
    × (stats.mid_price ≡ mid_of stats.best_bid stats.best_ask)
get_stats_lem_example = get_stats_lem two_asks two_asks-Inv two_asks-CacheInv

get_order_imbalance_lem_example :
    let bids = side_volume (take 5 two_asks.bid_levels) in
    let asks = side_volume (take 5 two_asks.ask_levels) in
    get_order_imbalance {D = ℤ} 5 two_asks ≡ (
      if bids + asks == 0
      then nought
      else Double.div whole
          (of_ℕ (if leb asks bids then bids - asks else 2 ^ 32 - (asks - bids)))
          (of_ℕ (bids + asks)))
get_order_imbalance_lem_example = get_order_imbalance_lem 5 two_asks two_asks-Inv two_asks_depth

abbrev purse : Portfolio ℤ
purse = new_portfolio (pos 100000)

trade_position-get_net_position_example :
    get_net_position "ACME" (trade_position "ACME" (pos 4) (pos 101) purse) ≡ (
      if str_eq "ACME" "ACME"
      then get_net_position "ACME" purse +ℤ pos 4
      else get_net_position "ACME" purse)
trade_position-get_net_position_example =
    trade_position-get_net_position "ACME" "ACME" (pos 4) (pos 101) purse

-- A strategy without state that does nothing, and a generator without signals.
abbrev pub idle : Hooks ℤ Unit Unit
idle = record {
  on_market_data = λ u b s f. (s, f);
  on_signal = λ x b s f. (s, f);
  on_fill = λ x s f. (s, f);
  on_start = λ s. s;
  on_end = λ f s. s;
}

abbrev pub mute : Generator Unit Unit
mute = record { update = λ b g. some g; generate_signals = λ b g. ([], g) }

pub mute-Steady : Steady mute (λ g. Unit)
mute-Steady = record { ends = λ b g ready. (g, refl, tt); keeps = λ b g ready. tt }

abbrev pub books : Named OrderBook
books = set_named "ACME" two_asks []

abbrev pub tester : Backtester ℤ Unit Unit
tester = record {
  strategies = tt ∷ [];
  portfolio = purse;
  order_books = books;
  signal_generator = tt;
  current_prices = [];
  perf_stats = record { events_processed = 0; orders_sent = 0; orders_filled = 0 };
  portfolio_history = [];
  initial_capital = pos 100000;
  commission_rate = pos 0;
  last_result = blank_result;
}

no_books-AllSound : AllSound []
unfolding find_named
no_books-AllSound name b e = absurd (ground arith)

pub books-AllSound : AllSound books
books-AllSound = set_named-AllSound "ACME" two_asks [] two_asks-Sound no_books-AllSound

abbrev bought : Order
bought = record (new_order 9 (pos 0) 8 bid 4) { type = market }

abbrev buying : Event
buying = record {
  type = order;
  timestamp = 4;
  symbol = "ACME";
  market_update = none;
  order = some bought;
  execution = none;
}

abbrev pub feed : MarketDataUpdate
feed = record {
  type = add_order;
  timestamp = 5;
  order_id = 10;
  price = pos 10000;
  quantity = 6;
  side = bid;
}

abbrev pub feeding : Event
feeding = record {
  type = market_data;
  timestamp = 5;
  symbol = "ACME";
  market_update = some feed;
  order = none;
  execution = none;
}

abbrev events : List (Event × ℕ)
events = (buying, 10) ∷ (feeding, 10) ∷ []

events-Carries : All (λ x. Carries (x.0).type x.0) events
events-Carries = ((bought, refl, omega arith, omega arith), ((feed, refl, omega arith), tt))

run-AllSound_example :
    (t' : Backtester ℤ Unit Unit) × (run idle mute events tester ≡ some t')
    × AllSound t'.order_books
    × Unit {0}
run-AllSound_example =
    run-AllSound idle mute mute-Steady events tester events-Carries books-AllSound tt

place_order-market_buy_example :
    get_net_position "ACME" (place_order idle mute market bought buying 10 tester).portfolio
    ≡ get_net_position "ACME" purse -ℤ pos (min 8 (side_volume (book_at "ACME" books).ask_levels))
place_order-market_buy_example =
    place_order-market_buy idle mute (λ x s f. refl) bought buying 10 tester refl (omega arith)
      books-AllSound
