-- ===== src/HeapBook/Refines.antt =====
-- A book on a heap beside the book of `Book`.
use lobsimulater.Base.{◌≡◌, refl, [], Option, none, some, Bool}
use lobsimulater.Types.{Side, bid, ask, Order, OrderId, Price}
use lobsimulater.Level.{PriceLevel}
use lobsimulater.Levels.{LevelRef, find_level}
use lobsimulater.Book
use lobsimulater.Levels.Order.{IsSorted}
use lobsimulater.Levels.Index.{Orders}
use lobsimulater.Book.{OrderBook, Metrics, levels_of, with_levels, store_level}
use lobsimulater.Heap.{Ptr}
use lobsimulater.HeapBook.{LinkedBook, map_of}
use lobsimulater.HeapBook.Find.{SamePrices, put_level-SamePrices}
use lobsimulater.HeapBook.Places.{View, Places, AtPlace}
use lobsimulater.HeapBook.Owned.{SameTarget, SameIndex, order_at}

-- What the two books hold beside their levels and indexes.
abbrev pub SameFields : LinkedBook → OrderBook → Type 0
SameFields hb b =
    (hb.symbol ≡ b.symbol)
    × (hb.cached_best_bid ≡ b.cached_best_bid)
    × (hb.cached_best_ask ≡ b.cached_best_ask)
    × (hb.cache_valid ≡ b.cache_valid)
    × (hb.metrics ≡ b.metrics)

-- At every side and price stands the same level with the same queue, the maps have the same prices in
-- the same order, and the index owns for each id the cell of its order.
pub record IsBook (hb : LinkedBook) (b : OrderBook) : Type 0 where
  pub view : View
  pub places : Places hb b view
  pub index : SameIndex view hb.orders b.orders
  pub prices : (s : Side) → SamePrices (map_of s hb) (levels_of s b)
  pub fields : SameFields hb b

pub store_level-SameFields :
    (s : Side) (p : Price) (l : PriceLevel) (hb : LinkedBook) (b : OrderBook)
    → SameFields hb b
    → SameFields hb (store_level s p l b)
unfolding store_level with_levels
store_level-SameFields bid p l hb b v = v
store_level-SameFields ask p l hb b v = v

pub remove_empty_level-SameFields :
    (s : Side) (p : Price) (hb : LinkedBook) (b : OrderBook)
    → SameFields hb b
    → SameFields hb (Book.remove_empty_level p s b)
unfolding Book.remove_empty_level with_levels
remove_empty_level-SameFields bid p hb b v = v
remove_empty_level-SameFields ask p hb b v = v

-- A write to a level of the book moves no price.
pub store_level-prices :
    (s : Side) (p : Price) (l k : PriceLevel) (hb : LinkedBook) (b : OrderBook)
    → IsSorted s (levels_of s b)
    → find_level p (levels_of s b) ≡ some k
    → ((u : Side) → SamePrices (map_of u hb) (levels_of u b))
    → (u : Side) → SamePrices (map_of u hb) (levels_of u (store_level s p l b))
unfolding store_level with_levels levels_of
store_level-prices bid p l k hb b v e h bid =
    put_level-SamePrices bid p l k hb.bid_levels b.bid_levels v e (h bid)
store_level-prices bid p l k hb b v e h ask = h ask
store_level-prices ask p l k hb b v e h bid = h bid
store_level-prices ask p l k hb b v e h ask =
    put_level-SamePrices ask p l k hb.ask_levels b.ask_levels v e (h ask)

-- What the index of the one book knows, the index of the other knows.
pub index-unknown :
    (view : View) (i : OrderId) (a : Option Ptr) → SameTarget view i a none → a ≡ none
index-unknown view i none v = refl
index-unknown view i (some a) v = absurd v

pub index-known :
    (view : View) (i : OrderId) (a : Option Ptr) (r : LevelRef)
    → SameTarget view i a (some r)
    → (x : Ptr) × (o : Order) × (a ≡ some x)
      × (order_at x (view r.side r.price) ≡ some o)
      × (o.id ≡ i)
index-known view i none r v = absurd v
index-known view i (some x) r (o, at, id) = (x, o, refl, at, id)

-- The same of the maps.
pub place-missing :
    (hb : LinkedBook) (b : OrderBook) (view : View) (s : Side) (p : Price) (t : Option Ptr)
    → AtPlace hb.cells hb.levels s p t none (view s p)
    → (t ≡ none) × (view s p ≡ [])
place-missing hb b view s p none v = (refl, v)
place-missing hb b view s p (some t) v = absurd v

pub place-found :
    (hb : LinkedBook) (b : OrderBook) (view : View) (s : Side) (p : Price) (t : Option Ptr)
    (l : PriceLevel)
    → AtPlace hb.cells hb.levels s p t (some l) (view s p)
    → (u : Ptr) × (t ≡ some u)
place-found hb b view s p none l v = absurd v
place-found hb b view s p (some t) l v = (t, refl)

-- The index, the caches and the metrics are no part of the levels.
pub touch-Places :
    (hb : LinkedBook) (b : OrderBook) (view : View) (orders : Orders) (m : Metrics) (c : Bool)
    → Places hb b view
    → Places hb (record b { orders = orders; metrics = m; cache_valid = c }) view
unfolding levels_of
touch-Places hb b view orders m c v bid p = v bid p
touch-Places hb b view orders m c v ask p = v ask p

pub touch-prices :
    (hb : LinkedBook) (b : OrderBook) (orders : Orders) (m : Metrics) (c : Bool)
    → ((s : Side) → SamePrices (map_of s hb) (levels_of s b))
    → (s : Side)
    → SamePrices
        (map_of s hb)
        (levels_of s (record b { orders = orders; metrics = m; cache_valid = c }))
unfolding levels_of
touch-prices hb b orders m c v bid = v bid
touch-prices hb b orders m c v ask = v ask
