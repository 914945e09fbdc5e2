-- ===== src/Book/Invariant.antt =====
-- What holds of every book between two calls: both maps are sorted and hold no empty level, each
-- level's counters agree with its queue, and the index agrees with the queues.
use Prim.Native.String.{String}
use lobsimulater.Base.{
  ◌≡◌, ◌≢◌, refl, [], false, Bool, All, lookup, ap, ◌∙◌, List, ◌&&◌, if◌then◌else◌, Bool-cases, inl,
  inr,
}
use lobsimulater.Types.{
  Order, Side, bid, ask, Price, OrderId, same_side, same_price, same_side-eq, same_price-eq,
}
use lobsimulater.Level.{PriceLevel, occurs}
use lobsimulater.Level.Quantities.{LevelInv}
use lobsimulater.Levels.{Levels, queue_at, hits}
use lobsimulater.Levels.Order.{
  put_level-All, erase_level-All, put_level-put_level, queue_at-put_level, queue_at-erase_level,
}
use lobsimulater.Levels.Index.{
  Orders, SideInv, keep-SideInv, put_level-SideInv, erase_level-SideInv,
}
use lobsimulater.Book.{
  OrderBook, Metrics, new_book, levels_of, with_levels, store_level, remove_empty_level, clear,
}

-- Orders rest at every level.
abbrev pub NoEmpty : Levels → Type 0
NoEmpty = All λ e. (e.1).queue ≢ []

pub record Inv (b : OrderBook) : Type 0 where
  pub bids : SideInv bid b.bid_levels b.orders
  pub asks : SideInv ask b.ask_levels b.orders
  pub full_bids : NoEmpty b.bid_levels
  pub full_asks : NoEmpty b.ask_levels

pub empty-SideInv : (s : Side) → SideInv s [] []
unfolding queue_at hits lookup
empty-SideInv s = record { sorted = tt; levels = tt; indexed = λ i p. refl }

-- A new book satisfies the invariant.
pub new_book-Inv : (name : String) → Inv (new_book name)
unfolding new_book
new_book-Inv name = record {
  bids = empty-SideInv bid;
  asks = empty-SideInv ask;
  full_bids = tt;
  full_asks = tt;
}

pub clear-Inv : (b : OrderBook) → Inv (clear b)
unfolding clear
clear-Inv b = record {
  bids = empty-SideInv bid;
  asks = empty-SideInv ask;
  full_bids = tt;
  full_asks = tt;
}

-- Metrics and cache do not matter to it.
pub touch-Inv :
    (b : OrderBook) (orders : Orders) (m : Metrics) (c : Bool)
    → Inv (record b { orders = orders })
    → Inv (record b { orders = orders; metrics = m; cache_valid = c })
touch-Inv b orders m c v = record {
  bids = v.bids;
  asks = v.asks;
  full_bids = v.full_bids;
  full_asks = v.full_asks;
}

pub side-Inv : (s : Side) {b : OrderBook} → Inv b → SideInv s (levels_of s b) b.orders
unfolding levels_of
side-Inv bid v = v.bids
side-Inv ask v = v.asks

pub full-Inv : (s : Side) {b : OrderBook} → Inv b → NoEmpty (levels_of s b)
unfolding levels_of
full-Inv bid v = v.full_bids
full-Inv ask v = v.full_asks

-- What an index sends to a side did not change.
abbrev pub SameHits : Side → Orders → Orders → Type 0
SameHits s orders orders' =
    (i : OrderId) (r : Price) → hits s r (lookup i orders') ≡ hits s r (lookup i orders)

-- What an index sends to the other prices of a side did not change.
abbrev pub SameElsewhere : Side → Price → Orders → Orders → Type 0
SameElsewhere s p orders orders' =
    (i : OrderId) (r : Price)
    → same_price p r ≡ false
    → hits s r (lookup i orders') ≡ hits s r (lookup i orders)

pub store_level-Inv :
    (s : Side) (p : Price) (l : PriceLevel) (b : OrderBook) (orders' : Orders)
    → Inv b
    → LevelInv s p l
    → l.queue ≢ []
    → ((i : OrderId) → occurs i l.queue ≡ hits s p (lookup i orders'))
    → SameElsewhere s p b.orders orders'
    → ((t : Side) → same_side s t ≡ false → SameHits t b.orders orders')
    → Inv (record (store_level s p l b) { orders = orders' })
unfolding store_level with_levels levels_of
store_level-Inv bid p l b orders' v inv full at same other = record {
  bids = put_level-SideInv v.bids orders' p same l inv at;
  asks = keep-SideInv v.asks orders' (other ask refl);
  full_bids = put_level-All (λ e. (e.1).queue ≢ []) bid p l b.bid_levels full v.full_bids;
  full_asks = v.full_asks;
}
store_level-Inv ask p l b orders' v inv full at same other = record {
  bids = keep-SideInv v.bids orders' (other bid refl);
  asks = put_level-SideInv v.asks orders' p same l inv at;
  full_bids = v.full_bids;
  full_asks = put_level-All (λ e. (e.1).queue ≢ []) ask p l b.ask_levels full v.full_asks;
}

pub remove_empty_level-Inv :
    (s : Side) (p : Price) (b : OrderBook) (orders' : Orders)
    → Inv b
    → ((i : OrderId) → hits s p (lookup i orders') ≡ 0)
    → SameElsewhere s p b.orders orders'
    → ((t : Side) → same_side s t ≡ false → SameHits t b.orders orders')
    → Inv (record (remove_empty_level p s b) { orders = orders' })
unfolding remove_empty_level with_levels levels_of
remove_empty_level-Inv bid p b orders' v gone same other = record {
  bids = erase_level-SideInv v.bids orders' p same gone;
  asks = keep-SideInv v.asks orders' (other ask refl);
  full_bids = erase_level-All (λ e. (e.1).queue ≢ []) p b.bid_levels v.full_bids;
  full_asks = v.full_asks;
}
remove_empty_level-Inv ask p b orders' v gone same other = record {
  bids = keep-SideInv v.bids orders' (other bid refl);
  asks = erase_level-SideInv v.asks orders' p same gone;
  full_bids = v.full_bids;
  full_asks = erase_level-All (λ e. (e.1).queue ≢ []) p b.ask_levels v.full_asks;
}

-- A level that is put in its map and then written is written once.
pub store_level-store_level :
    (s : Side) (p : Price) (k l : PriceLevel) (b : OrderBook)
    → store_level s p l (store_level s p k b) ≡ store_level s p l b
unfolding store_level with_levels levels_of
store_level-store_level bid p k l b = rw (put_level-put_level bid p k l b.bid_levels) refl
store_level-store_level ask p k l b = rw (put_level-put_level ask p k l b.ask_levels) refl

pub store_level-orders :
    (s : Side) (p : Price) (l : PriceLevel) (b : OrderBook)
    → (store_level s p l b).orders ≡ b.orders
unfolding store_level with_levels
store_level-orders bid p l b = refl
store_level-orders ask p l b = refl

pub remove_empty_level-orders :
    (s : Side) (p : Price) (b : OrderBook) → (remove_empty_level p s b).orders ≡ b.orders
unfolding remove_empty_level with_levels
remove_empty_level-orders bid p b = refl
remove_empty_level-orders ask p b = refl

-- The orders that rest on a side at a price.
abbrev pub queue_of : Side → Price → OrderBook → List Order
queue_of s p b = queue_at p (levels_of s b)

pub queue_of-store_level :
    (s : Side) (p : Price) (l : PriceLevel) (b : OrderBook) (t : Side) (r : Price)
    → queue_of t r (store_level s p l b)
      ≡ (if same_side s t && same_price p r then l.queue else queue_of t r b)
unfolding store_level with_levels levels_of
queue_of-store_level bid p l b bid r = queue_at-put_level bid p l b.bid_levels r
queue_of-store_level bid p l b ask r = refl
queue_of-store_level ask p l b bid r = refl
queue_of-store_level ask p l b ask r = queue_at-put_level ask p l b.ask_levels r

pub queue_of-remove_empty_level :
    (s : Side) (p : Price) (b : OrderBook) (t : Side) (r : Price)
    → queue_of t r (remove_empty_level p s b)
      ≡ (if same_side s t && same_price p r then [] else queue_of t r b)
unfolding remove_empty_level with_levels levels_of
queue_of-remove_empty_level bid p b bid r = queue_at-erase_level p b.bid_levels r
queue_of-remove_empty_level bid p b ask r = refl
queue_of-remove_empty_level ask p b bid r = refl
queue_of-remove_empty_level ask p b ask r = queue_at-erase_level p b.ask_levels r

-- The index and the caches are no part of the queues.
pub queue_of-touch :
    (b : OrderBook) (orders : Orders) (m : Metrics) (c : Bool) (t : Side) (r : Price)
    → queue_of t r (record b { orders = orders; metrics = m; cache_valid = c }) ≡ queue_of t r b
unfolding levels_of
queue_of-touch b orders m c bid r = refl
queue_of-touch b orders m c ask r = refl

-- A test on the place of a queue, read as equations.
pub at_place :
    (s : Side) (p : Price) (t : Side) (r : Price) (b : OrderBook) (f : List Order → List Order)
    → (if same_side s t && same_price p r then f (queue_of s p b) else queue_of t r b)
      ≡ (if same_side s t && same_price p r then f (queue_of t r b) else queue_of t r b)
at_place s p t r b f = elim (Bool-cases (same_side s t)) [
  | inr off ↦ rw off refl
  | inl on ↦ elim (Bool-cases (same_price p r)) [
    | inr off ↦ rw (on, off) refl
    | inl at ↦
        rw (on, at)
          (ap f (
            ap (λ x. queue_of x p b) (same_side-eq s t on)
            ∙ ap (λ x. queue_of t x b) (same_price-eq p r at)))
  ]
]

-- A level written back with its queue changed by `f` changes the queues of the book there alone.
pub store_level-queue_of :
    (s : Side) (p : Price) (l : PriceLevel) (b : OrderBook) (f : List Order → List Order) (t : Side)
    (r : Price)
    → l.queue ≡ f (queue_of s p b)
    → queue_of t r (store_level s p l b)
      ≡ (if same_side s t && same_price p r then f (queue_of t r b) else queue_of t r b)
store_level-queue_of s p l b f t r h =
    queue_of-store_level s p l b t r
    ∙ ap (λ q. if same_side s t && same_price p r then q else queue_of t r b) h
    ∙ at_place s p t r b f
