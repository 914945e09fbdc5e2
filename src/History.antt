-- ===== src/History.antt =====
-- Any history of calls on an `OrderBook`.
mod Changes
unfoldable pub use Changes.*
use Prim.Native.String.{String}
use lobsimulater.Base.{
  ℕ, ◌<◌, ◌^◌, ◌≡◌, refl, ◌∙◌, ap, subst, List, [], ◌∷◌, Option, none, some, Bool, ◌>>=◌, All,
  Option-cases, Bool-cases, inl, inr, lookup, is_empty, ◌||◌, ◌==◌,
}
use lobsimulater.Types.{Side, Order, OrderId, Quantity, Timestamp, Price, add32}
use lobsimulater.Book.Change.{deref_lem}
use lobsimulater.Book.{
  OrderBook, new_book, add_order, modify_order, cancel_order, clear, reset_metrics, no_metrics,
}
use lobsimulater.Book.Invariant.{Inv, new_book-Inv, clear-Inv, touch-Inv}
use lobsimulater.Book.Add.{add_order-Inv}
use lobsimulater.Book.Change.{modify_order-Inv}
use lobsimulater.Book.Cancel.{cancel_order-Inv}
use lobsimulater.Market.{process_market_order}
use lobsimulater.Market.Fills.{process_market_order-Inv}
use lobsimulater.Crossing.{match_orders}
use lobsimulater.Crossing.Result.{match_orders-Inv}
use lobsimulater.Queries.{get_best_bid, get_best_ask, get_order, get_queue_position, depth_from}
use lobsimulater.Queries.Position.{get_queue_position-ahead}
use lobsimulater.Double.{Double}
use lobsimulater.Stats.{get_spread, get_mid_price, get_micro_price, get_stats}
use lobsimulater.Stats.Values.{get_spread-book, get_mid_price-book}
use lobsimulater.Queries.Cache.{
  CacheInv, add_order-CacheInv, modify_order-CacheInv, cancel_order-CacheInv,
  process_market_order-CacheInv, match_orders-CacheInv, clear-CacheInv, new_book-CacheInv,
  get_best-first_price, refresh_cache-Inv,
}

-- The public calls that are `const`, of which some fill the caches and some follow a pointer.
pub data Query : Type 0 where
  asks_order : OrderId → Query
  asks_best_bid : Query
  asks_best_ask : Query
  asks_spread : Query
  asks_mid_price : Query
  asks_micro_price : ℕ → Query
  asks_imbalance : ℕ → Query
  asks_position : OrderId → Query
  asks_stats : Query
  asks_aggregate : Side → ℕ → Query
  asks_level : Price → Side → Query
  asks_count : Query
  asks_symbol : Query
  asks_metrics : Query

pub data Call : Type 0 where
  updates : Update → Call
  asks : Query → Call

-- The quantities of a call fit their type.
abbrev pub Fits : Call → Type 0
Fits (updates c) = UpdateFits c
Fits (asks q) = Unit

-- The pointer of a known order leads to it.
get_order-found :
    (i : OrderId) (b : OrderBook) → Inv b → (o : Option Order) × (get_order i b ≡ some o)
unfolding get_order
get_order-found i b v = elim (Option-cases (lookup i b.orders)) [
  | inl unknown ↦ (none, rw (unknown, get_order) refl)
  | inr (r, known) ↦
      let (l, o, t) = deref_lem i r b v known in (some o, rw (known, get_order, t.reached) refl)
]

get_queue_position-found :
    (i : OrderId) (b : OrderBook) → Inv b → (n : Quantity) × (get_queue_position i b ≡ some n)
unfolding get_queue_position
get_queue_position-found i b v = elim (Option-cases (lookup i b.orders)) [
  | inl unknown ↦ (0, rw (unknown, get_queue_position) refl)
  | inr (r, known) ↦ (_, get_queue_position-ahead i b r v known)
]

module _ (D : Type 0) ⦃d : Double D⦄ where
  -- The book after a query, with the caches that it may have filled.
  unfoldable pub query : Query → OrderBook → Option OrderBook
  query (asks_order i) b = do o ← get_order i b; some b
  query asks_best_bid b = some (get_best_bid b).1
  query asks_best_ask b = some (get_best_ask b).1
  query asks_spread b = some (get_spread {D = D} b).1
  query asks_mid_price b = some (get_mid_price {D = D} b).1
  query (asks_micro_price n) b = some (get_micro_price {D = D} n b).1
  query (asks_imbalance n) b = some b
  query (asks_position i) b = do n ← get_queue_position i b; some b
  query asks_stats b = some (get_stats {D = D} b).1
  query (asks_aggregate s n) b = some b
  query (asks_level p s) b = some b
  query asks_count b = some b
  query asks_symbol b = some b
  query asks_metrics b = some b

  unfoldable pub call : Call → OrderBook → Option OrderBook
  call (updates c) b = update c b
  call (asks q) b = query q b

  unfoldable pub run : List Call → OrderBook → Option OrderBook
  run [] b = some b
  run (c ∷ cs) b = do b' ← call c b; run cs b'

  spread-Sound : (b : OrderBook) → Sound b → Sound (get_spread {D = D} b).1
  spread-Sound b v = rw (get_spread-book D b) (asked-Sound b v)

  mid_price-Sound : (b : OrderBook) → Sound b → Sound (get_mid_price {D = D} b).1
  mid_price-Sound b v = rw (get_mid_price-book D b) (asked-Sound b v)

  micro_price-Sound : (n : ℕ) (b : OrderBook) → Sound b → Sound (get_micro_price {D = D} n b).1
  unfolding get_micro_price
  micro_price-Sound n b v =
      let all_qty = add32 (depth_from 0 0 n b.bid_levels) (depth_from 0 0 n b.ask_levels) in
      elim (Bool-cases (is_empty b.bid_levels || is_empty b.ask_levels)) [
        | inl one_sided ↦ rw one_sided v
        | inr two_sided ↦ elim (Bool-cases (all_qty == 0)) [
          | inl nothing ↦ rw (two_sided, nothing) (mid_price-Sound b v)
          | inr something ↦ rw (two_sided, something) v
        ]
      ]

  stats-Sound : (b : OrderBook) → Sound b → Sound (get_stats {D = D} b).1
  unfolding get_stats
  stats-Sound b v = micro_price-Sound 1 _ (mid_price-Sound _ (spread-Sound b v))

  -- Each query of a sound book has an answer, and leaves a sound book.
  query-Sound :
      (q : Query) (b : OrderBook) → Sound b → (b' : OrderBook) × (query q b ≡ some b') × Sound b'
  unfolding query
  query-Sound (asks_order i) b v =
      let (o, found) = get_order-found i b v.book in (b, rw found refl, v)
  query-Sound asks_best_bid b v = (_, refl, asked-Sound b v)
  query-Sound asks_best_ask b v =
      (_, refl, subst Sound (get_best-first_price b v.caches).2 (asked-Sound b v))
  query-Sound asks_spread b v = (_, refl, spread-Sound b v)
  query-Sound asks_mid_price b v = (_, refl, mid_price-Sound b v)
  query-Sound (asks_micro_price n) b v = (_, refl, micro_price-Sound n b v)
  query-Sound (asks_imbalance n) b v = (b, refl, v)
  query-Sound (asks_position i) b v =
      let (n, found) = get_queue_position-found i b v.book in (b, rw found refl, v)
  query-Sound asks_stats b v = (_, refl, stats-Sound b v)
  query-Sound (asks_aggregate s n) b v = (b, refl, v)
  query-Sound (asks_level p s) b v = (b, refl, v)
  query-Sound asks_count b v = (b, refl, v)
  query-Sound asks_symbol b v = (b, refl, v)
  query-Sound asks_metrics b v = (b, refl, v)

  call-Sound :
      (c : Call) (b : OrderBook)
      → Fits c
      → Sound b
      → (b' : OrderBook) × (call c b ≡ some b') × Sound b'
  unfolding call
  call-Sound (updates c) b fits v = update-Sound c b fits v
  call-Sound (asks q) b fits v = query-Sound q b v

  run-Sound :
      (cs : List Call) (b : OrderBook)
      → All Fits cs
      → Sound b
      → (b' : OrderBook) × (run cs b ≡ some b') × Sound b'
  unfolding run
  run-Sound [] b fits v = (b, refl, v)
  run-Sound (c ∷ cs) b (fits, rest) v =
      let (b1, done, v1) = call-Sound c b fits v in
      let (b', finish, v') = run-Sound cs b1 rest v1 in
      (b', ap (λ x. x >>= run cs) done ∙ finish, v')

  -- After any history of public calls on a new book, whose quantities fit 32 bits and whose numbers of
  -- levels are not negative, no pointer of the index has dangled, and the book is sound: maps sorted and without empty levels, counters and index true, caches true.
  pub run-new_book-Sound :
      (cs : List Call) (name : String)
      → All Fits cs
      → (b : OrderBook) × (run cs (new_book name) ≡ some b) × Sound b
  run-new_book-Sound cs name fits = run-Sound cs (new_book name) fits (new_book-Sound name)
