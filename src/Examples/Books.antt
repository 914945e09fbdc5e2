-- ===== src/Examples/Books.antt =====
-- The theorems on the book at small concrete books.
use lobsimulater.Base.{
  ℤ, ◌+◌, ◌%◌, ◌^◌, ◌≡◌, pos, List, [], ◌∷◌, ◌++◌, some, none, Bool, false, if◌then◌else◌, ◌&&◌,
  arith, All, is_empty, lookup, min, take, map, erase, ◌↔◌,
}
use lobsimulater.Types.{bid, ask, same_side, same_price, opposite}
use lobsimulater.Level.{volume, unlink}
use lobsimulater.Levels.{side_volume}
use lobsimulater.Book.{OrderBook, new_book, modify_order, levels_of}
use lobsimulater.Book.Invariant.{Inv, queue_of}
use lobsimulater.Book.Add.{add_order-queue_of}
use lobsimulater.Book.Change.{modify_order-Inv, modify_order-queue_of, reposition}
use lobsimulater.Book.Cancel.{cancel_order-queue_of}
use lobsimulater.Fill.{executed}
use lobsimulater.Market.{process_market_order}
use lobsimulater.Market.Fills.{process_market_order-executed}
use lobsimulater.Market.Priority.{priced, fills_of, rest_of, process_market_order-fills_of}
use lobsimulater.Crossing.{match_orders}
use lobsimulater.Crossing.Priority.{Trades, match_orders-Trades}
use lobsimulater.Crossing.Result.{
  IsUncrossed, match_orders-IsUncrossed, match_orders-executed, match_orders_progress,
}
use lobsimulater.Queries.{
  first_price, get_best_bid, get_best_ask, get_aggregated_book, get_queue_position,
}
use lobsimulater.Queries.Cache.{CacheInv, get_best-first_price}
use lobsimulater.Queries.Depth.{aggregated, get_aggregated_book-take}
use lobsimulater.Queries.Position.{ahead, get_queue_position-ahead}
use lobsimulater.History.{
  Call, updates, asks, adds, modifies, cancels, trades, matches, asks_spread, asks_stats,
  asks_position, asks_order, Fits, run, Sound, run-new_book-Sound,
}
use lobsimulater.Examples.{
  whole, at_best, raised, without_first, high_bid_fresh, first_ask_known, second_ask_known,
  first_ask_raised, first_ask_canceled, first_ask, second_ask, high_bid, two_asks, crossed,
  two_asks-Inv, crossed-Inv, crossed-CacheInv, crossed-crosses,
}

abbrev session : List Call
session =
    updates (adds first_ask 10)
    ∷ updates (adds second_ask 10)
    ∷ asks asks_spread
    ∷ updates (adds high_bid 10)
    ∷ updates matches
    ∷ asks asks_stats
    ∷ asks (asks_position 2)
    ∷ updates (modifies 2 9 10)
    ∷ asks (asks_order 2)
    ∷ updates (trades bid 4 5)
    ∷ updates (cancels 2 10)
    ∷ []

session-Fits : All Fits session
session-Fits = (
  omega arith,
  (
    omega arith,
    (tt, (omega arith, (tt, (tt, (tt, (omega arith, (tt, (omega arith, (tt, tt))))))))),
  ),
)

run-new_book-Sound_example :
    (b : OrderBook) × (run ℤ ⦃d = whole⦄ session (new_book "ACME") ≡ some b) × Sound b
run-new_book-Sound_example = run-new_book-Sound ℤ ⦃d = whole⦄ session "ACME" session-Fits

match_orders-IsUncrossed_example :
    IsUncrossed (match_orders crossed).0.bid_levels (match_orders crossed).0.ask_levels
match_orders-IsUncrossed_example = match_orders-IsUncrossed crossed crossed-Inv

match_orders-executed_example :
    (side_volume (match_orders crossed).0.bid_levels + executed (match_orders crossed).1
      ≡ side_volume crossed.bid_levels)
    × (side_volume (match_orders crossed).0.ask_levels + executed (match_orders crossed).1
        ≡ side_volume crossed.ask_levels)
match_orders-executed_example = match_orders-executed crossed crossed-Inv

process_market_order-executed_example :
    (executed (process_market_order bid 8 4 two_asks).1
      ≡ min 8 (side_volume (levels_of (opposite bid) two_asks)))
    × (side_volume (levels_of (opposite bid) (process_market_order bid 8 4 two_asks).0)
          + executed (process_market_order bid 8 4 two_asks).1
        ≡ side_volume (levels_of (opposite bid) two_asks))
    × (levels_of bid (process_market_order bid 8 4 two_asks).0 ≡ levels_of bid two_asks)
process_market_order-executed_example =
    process_market_order-executed bid 8 4 two_asks two_asks-Inv (omega arith)

add_order-queue_of_example : queue_of bid (pos 10200) crossed ≡ (
    if same_side bid bid && same_price (pos 10200) (pos 10200)
    then queue_of bid (pos 10200) two_asks ++ (high_bid ∷ [])
    else queue_of bid (pos 10200) two_asks)
add_order-queue_of_example =
    add_order-queue_of high_bid 0 two_asks bid (pos 10200) two_asks-Inv high_bid_fresh

modify_order-Inv_example :
    (b' : OrderBook) × (ok : Bool) × (modify_order 1 9 0 two_asks ≡ some (b', ok))
    × Inv b'
    × (ok ≡ false ↔ lookup 1 two_asks.orders ≡ none)
modify_order-Inv_example = modify_order-Inv 1 9 0 two_asks two_asks-Inv (omega arith)

modify_order-queue_of_example : queue_of ask (pos 10100) raised ≡ (
    if same_side ask ask && same_price (pos 10100) (pos 10100)
    then reposition 1 9 (queue_of ask (pos 10100) two_asks)
    else queue_of ask (pos 10100) two_asks)
modify_order-queue_of_example =
    modify_order-queue_of 1 9 0 two_asks raised at_best ask (pos 10100) two_asks-Inv first_ask_known
      first_ask_raised

cancel_order-queue_of_example :
    (queue_of ask (pos 10100) without_first ≡ (
      if same_side ask ask && same_price (pos 10100) (pos 10100)
      then unlink 1 (queue_of ask (pos 10100) two_asks)
      else queue_of ask (pos 10100) two_asks))
    × (without_first.orders ≡ erase 1 two_asks.orders)
cancel_order-queue_of_example =
    cancel_order-queue_of 1 0 two_asks without_first at_best ask (pos 10100) two_asks-Inv
      first_ask_known first_ask_canceled

get_best-first_price_example :
    ((get_best_bid crossed).0 ≡ first_price crossed.bid_levels)
    × ((get_best_ask crossed).0 ≡ first_price crossed.ask_levels)
    × ((get_best_bid crossed).1 ≡ (get_best_ask crossed).1)
    × CacheInv (get_best_bid crossed).1
get_best-first_price_example = get_best-first_price crossed crossed-CacheInv

get_aggregated_book-take_example :
    get_aggregated_book ask 5 two_asks ≡ take 5 (map aggregated (levels_of ask two_asks))
get_aggregated_book-take_example = get_aggregated_book-take ask 5 two_asks two_asks-Inv

get_queue_position-ahead_example :
    get_queue_position 2 two_asks
    ≡ some (volume (ahead 2 (queue_of ask (pos 10100) two_asks)) % 2 ^ 32)
get_queue_position-ahead_example =
    get_queue_position-ahead 2 two_asks at_best two_asks-Inv second_ask_known

process_market_order-fills_of_example :
    ((process_market_order bid 8 4 two_asks).1
      ≡ fills_of bid 4 8 (priced (levels_of (opposite bid) two_asks)))
    × (priced (levels_of (opposite bid) (process_market_order bid 8 4 two_asks).0)
        ≡ rest_of 8 (priced (levels_of (opposite bid) two_asks)))
process_market_order-fills_of_example =
    process_market_order-fills_of bid 8 4 two_asks two_asks-Inv (omega arith)

match_orders-Trades_example :
    Trades
      (priced crossed.bid_levels)
      (priced crossed.ask_levels)
      (match_orders crossed).1
      (priced (match_orders crossed).0.bid_levels)
      (priced (match_orders crossed).0.ask_levels)
match_orders-Trades_example = match_orders-Trades crossed crossed-Inv

match_orders_progress_example : is_empty (match_orders crossed).1 ≡ false
match_orders_progress_example = match_orders_progress crossed crossed-Inv crossed-crosses
