-- ===== src/History/Changes.antt =====
-- The calls that change an `OrderBook`, each on a sound book.
use Prim.Native.String.{String}
use lobsimulater.Base.{ℕ, ◌<◌, ◌^◌, ◌≡◌, refl, ap, Option, none, some, Bool}
use lobsimulater.Types.{Side, Order, OrderId, Quantity, Timestamp}
use lobsimulater.Book.{
  OrderBook, new_book, add_order, modify_order, cancel_order, clear, reset_metrics, no_metrics,
}
use lobsimulater.Book.Invariant.{Inv, new_book-Inv, clear-Inv, touch-Inv}
use lobsimulater.Book.Add.{add_order-Inv}
use lobsimulater.Book.Change.{modify_order-Inv}
use lobsimulater.Book.Cancel.{cancel_order-Inv}
use lobsimulater.Market.{process_market_order}
use lobsimulater.Market.Fills.{process_market_order-Inv}
use lobsimulater.Crossing.{match_orders}
use lobsimulater.Crossing.Result.{match_orders-Inv}
use lobsimulater.Queries.{get_best_bid}
use lobsimulater.Queries.Cache.{
  CacheInv, add_order-CacheInv, modify_order-CacheInv, cancel_order-CacheInv,
  process_market_order-CacheInv, match_orders-CacheInv, clear-CacheInv, new_book-CacheInv,
  get_best-first_price, refresh_cache-Inv,
}

-- The public calls that change the book, all but the constructor.
pub data Update : Type 0 where
  adds : Order → ℕ → Update
  modifies : OrderId → Quantity → ℕ → Update
  cancels : OrderId → ℕ → Update
  trades : Side → Quantity → Timestamp → Update
  matches : Update
  clears : Update
  resets_metrics : Update

-- The quantities of a call fit their type.
abbrev pub UpdateFits : Update → Type 0
UpdateFits (adds o elapsed) = o.remaining_quantity < 2 ^ 32
UpdateFits (modifies i n elapsed) = n < 2 ^ 32
UpdateFits (trades s n ts) = n < 2 ^ 32
UpdateFits _ = Unit

abbrev pub forget : Option (OrderBook × Bool) → Option OrderBook
forget none = none
forget (some (b, ok)) = some b

-- The book after a call; its answer is left out.
unfoldable pub update : Update → OrderBook → Option OrderBook
update (adds o elapsed) b = some (add_order o elapsed b).0
update (modifies i n elapsed) b = forget (modify_order i n elapsed b)
update (cancels i elapsed) b = forget (cancel_order i elapsed b)
update (trades s n ts) b = some (process_market_order s n ts b).0
update matches b = some (match_orders b).0
update clears b = some (clear b)
update resets_metrics b = some (reset_metrics b)

pub record Sound (b : OrderBook) : Type 0 where
  pub book : Inv b
  pub caches : CacheInv b

-- Each change of a sound book succeeds, and leaves a sound book.
pub update-Sound :
    (c : Update) (b : OrderBook)
    → UpdateFits c
    → Sound b
    → (b' : OrderBook) × (update c b ≡ some b') × Sound b'
unfolding update reset_metrics
update-Sound (adds o elapsed) b fits v = (
  (add_order o elapsed b).0,
  refl,
  record {
    book = add_order-Inv o elapsed b v.book fits;
    caches = add_order-CacheInv o elapsed b v.caches;
  },
)
update-Sound (modifies i n elapsed) b fits v =
    let (b', ok, done, inv, _) = modify_order-Inv i n elapsed b v.book fits in
    (
      b',
      ap forget done,
      record { book = inv; caches = modify_order-CacheInv i n elapsed b b' ok done v.caches },
    )
update-Sound (cancels i elapsed) b fits v =
    let (b', ok, done, inv, _) = cancel_order-Inv i elapsed b v.book in
    (
      b',
      ap forget done,
      record { book = inv; caches = cancel_order-CacheInv i elapsed b b' ok done v.caches },
    )
update-Sound (trades s n ts) b fits v = (
  (process_market_order s n ts b).0,
  refl,
  record {
    book = process_market_order-Inv s n ts b v.book fits;
    caches = process_market_order-CacheInv s n ts b;
  },
)
update-Sound matches b fits v = (
  (match_orders b).0,
  refl,
  record { book = match_orders-Inv b v.book; caches = match_orders-CacheInv b v.book v.caches },
)
update-Sound clears b fits v =
    (clear b, refl, record { book = clear-Inv b; caches = clear-CacheInv b })
update-Sound resets_metrics b fits v = (
  reset_metrics b,
  refl,
  record {
    book = touch-Inv b b.orders no_metrics b.cache_valid v.book;
    caches = record { best_bid = v.caches.best_bid; best_ask = v.caches.best_ask };
  },
)

pub new_book-Sound : (name : String) → Sound (new_book name)
new_book-Sound name = record { book = new_book-Inv name; caches = new_book-CacheInv name }

-- A book whose caches a query has filled.
pub asked-Sound : (b : OrderBook) → Sound b → Sound (get_best_bid b).1
asked-Sound b v = record {
  book = refresh_cache-Inv b v.book;
  caches = (get_best-first_price b v.caches).3;
}
