-- ===== src/Queries/Cache.antt =====
-- The cached best prices of a book, and what each operation does to them.
use Prim.Native.String.{String}
use lobsimulater.Base.{
  ℕ, ◌≡◌, refl, sym, ap, ◌∙◌, some, Bool, true, false, if◌then◌else◌, arith, Option-cases,
  Bool-cases, inl, inr, is_empty, lookup, ◌⊎◌, subst,
}
use lobsimulater.Types.{Side, Order, OrderId, Quantity, Timestamp}
use lobsimulater.Book.{
  OrderBook, new_book, add_order, enter_order, modify_order, cancel_order, clear,
}
use lobsimulater.Book.Invariant.{Inv}
use lobsimulater.Market.{process_market_order}
use lobsimulater.Crossing.{match_orders}
use lobsimulater.Crossing.Result.{match_orders-idle}
use lobsimulater.Queries.{first_price, update_cache, refresh_cache, get_best_bid, get_best_ask}

-- A valid cache holds the best prices.
pub record CacheInv (b : OrderBook) : Type 0 where
  pub best_bid : b.cache_valid ≡ true → b.cached_best_bid ≡ first_price b.bid_levels
  pub best_ask : b.cache_valid ≡ true → b.cached_best_ask ≡ first_price b.ask_levels

pub invalid-CacheInv : (b : OrderBook) → b.cache_valid ≡ false → CacheInv b
invalid-CacheInv b h = record { best_bid = λ e. cc (h, e); best_ask = λ e. cc (h, e) }

pub refresh_cache-valid : (b : OrderBook) → b.cache_valid ≡ true → refresh_cache b ≡ b
unfolding refresh_cache
refresh_cache-valid b on = ap (λ c. if c then b else update_cache b) on

pub refresh_cache-invalid :
    (b : OrderBook) → b.cache_valid ≡ false → refresh_cache b ≡ update_cache b
unfolding refresh_cache
refresh_cache-invalid b off = ap (λ c. if c then b else update_cache b) off

-- Where valid caches are true, both queries answer with the best prices of the maps, whether or not the
-- caches are valid, and leave the same book, whose caches are true.
pub get_best-first_price :
    (b : OrderBook)
    → CacheInv b
    → ((get_best_bid b).0 ≡ first_price b.bid_levels)
      × ((get_best_ask b).0 ≡ first_price b.ask_levels)
      × ((get_best_bid b).1 ≡ (get_best_ask b).1)
      × CacheInv (get_best_bid b).1
unfolding get_best_bid get_best_ask update_cache
get_best-first_price b v = elim (Bool-cases b.cache_valid) [
  | inl on ↦ rw (refresh_cache-valid b on) (v.best_bid on, v.best_ask on, refl, v)
  | inr off ↦
      rw (refresh_cache-invalid b off)
        (refl, refl, refl, record { best_bid = λ _. refl; best_ask = λ _. refl })
]

pub add_order-CacheInv :
    (o : Order) (elapsed : ℕ) (b : OrderBook) → CacheInv b → CacheInv (add_order o elapsed b).0
unfolding add_order enter_order
add_order-CacheInv o elapsed b v = elim (Option-cases (lookup o.id b.orders)) [
  | inl fresh ↦ rw (fresh, add_order) (invalid-CacheInv _ refl)
  | inr (r, known) ↦ rw (known, add_order) v
]

modify_order-cache :
    (i : OrderId) (n : Quantity) (elapsed : ℕ) (b b' : OrderBook) (ok : Bool)
    → modify_order i n elapsed b ≡ some (b', ok)
    → (b ≡ b') ⊎ (b'.cache_valid ≡ false)
unfolding modify_order
modify_order-cache i n elapsed b b' ok e = elim (Option-cases (lookup i b.orders)) [
  | inl unknown ↦ inl (ground (arith, unknown))
  | inr (r, known) ↦ inr (ground (arith, known))
]

cancel_order-cache :
    (i : OrderId) (elapsed : ℕ) (b b' : OrderBook) (ok : Bool)
    → cancel_order i elapsed b ≡ some (b', ok)
    → (b ≡ b') ⊎ (b'.cache_valid ≡ false)
unfolding cancel_order
cancel_order-cache i elapsed b b' ok e = elim (Option-cases (lookup i b.orders)) [
  | inl unknown ↦ inl (ground (arith, unknown))
  | inr (r, known) ↦ inr (ground (arith, known))
]

changed-CacheInv :
    (b b' : OrderBook) → (b ≡ b') ⊎ (b'.cache_valid ≡ false) → CacheInv b → CacheInv b'
changed-CacheInv b b' (inl same) v = subst CacheInv same v
changed-CacheInv b b' (inr off) v = invalid-CacheInv b' off

pub modify_order-CacheInv :
    (i : OrderId) (n : Quantity) (elapsed : ℕ) (b b' : OrderBook) (ok : Bool)
    → modify_order i n elapsed b ≡ some (b', ok)
    → CacheInv b
    → CacheInv b'
modify_order-CacheInv i n elapsed b b' ok e =
    changed-CacheInv b b' (modify_order-cache i n elapsed b b' ok e)

pub cancel_order-CacheInv :
    (i : OrderId) (elapsed : ℕ) (b b' : OrderBook) (ok : Bool)
    → cancel_order i elapsed b ≡ some (b', ok)
    → CacheInv b
    → CacheInv b'
cancel_order-CacheInv i elapsed b b' ok e =
    changed-CacheInv b b' (cancel_order-cache i elapsed b b' ok e)

pub process_market_order-CacheInv :
    (side : Side) (quantity : Quantity) (ts : Timestamp) (b : OrderBook)
    → CacheInv (process_market_order side quantity ts b).0
unfolding process_market_order
process_market_order-CacheInv side quantity ts b = invalid-CacheInv _ refl

pub clear-CacheInv : (b : OrderBook) → CacheInv (clear b)
unfolding clear
clear-CacheInv b = invalid-CacheInv _ refl

pub new_book-CacheInv : (name : String) → CacheInv (new_book name)
unfolding new_book
new_book-CacheInv name = invalid-CacheInv _ refl

-- On a book that satisfies the invariant and whose valid caches are true, `matchOrders`, which
-- invalidates the caches only if it executes something, leaves a book whose valid caches are true.
pub match_orders-CacheInv : (b : OrderBook) → Inv b → CacheInv b → CacheInv (match_orders b).0
unfolding match_orders
match_orders-CacheInv b v c = elim (Bool-cases (is_empty (match_orders b).1)) [
  | inr some_done ↦ invalid-CacheInv _ (rw some_done refl)
  | inl none_done ↦
      let (bids, asks) = match_orders-idle b v none_done in
      record {
        best_bid = λ e. c.best_bid (rw none_done at e) ∙ ap first_price (sym bids);
        best_ask = λ e. c.best_ask (rw none_done at e) ∙ ap first_price (sym asks);
      }
]

-- A query that fills the caches keeps the book's invariant.
pub refresh_cache-Inv : (b : OrderBook) → Inv b → Inv (get_best_bid b).1
unfolding get_best_bid update_cache
refresh_cache-Inv b v = elim (Bool-cases b.cache_valid) [
  | inl on ↦ rw (refresh_cache-valid b on) v
  | inr off ↦
      rw (refresh_cache-invalid b off)
        (record { bids = v.bids; asks = v.asks; full_bids = v.full_bids; full_asks = v.full_asks })
]
