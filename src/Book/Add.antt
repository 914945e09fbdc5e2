-- ===== src/Book/Add.antt =====
-- `OrderBook::addOrder`: the invariant, the queues and the index.
use lobsimulater.Base.{
  ℕ, ◌+◌, ◌<◌, ◌^◌, ◌≡◌, ◌≢◌, refl, sym, ◌∙◌, ap, [], ◌∷◌, ◌++◌, List, none, some, false,
  if◌then◌else◌, Option-cases, inl, inr, lookup, insert, lookup-insert, ◌==◌, arith, ==_iff, ◌&&◌,
}
use lobsimulater.Types.{Side, Order, OrderId, Price, same_side, same_price, add64}
use lobsimulater.Level
use lobsimulater.Level.{PriceLevel, occurs, new_level}
use lobsimulater.Level.Quantities.{LevelInv, new_level-LevelInv, add_order-LevelInv, occurs-append}
use lobsimulater.Levels.{LevelRef, find_level, hits}
use lobsimulater.Levels.Order.{find_level-All, queue_at-find_level, queue_at-find_none}
use lobsimulater.Levels.Index.{Orders, hits-insert, hits_self, hits-other_side, hits-other_price}
use lobsimulater.Book.{
  OrderBook, levels_of, get_or_create_level, store_level, enter_order, add_order,
}
use lobsimulater.Book.Invariant.{
  Inv, SameHits, SameElsewhere, touch-Inv, side-Inv, store_level-Inv, store_level-store_level,
  store_level-orders, queue_of, store_level-queue_of, queue_of-touch,
}

-- The index with a new id changes at that id's level only.
module _ (orders : Orders) (i : OrderId) (r : LevelRef) (fresh : lookup i orders ≡ none) where
  insert-SameElsewhere : SameElsewhere r.side r.price orders (insert i r orders)
  unfolding hits
  insert-SameElsewhere j q h =
      rw (hits-insert r.side q i j r orders, hits-other_price r.side q r h)
        (ground (arith, fresh, (==_iff i j).0))

  insert-SameHits : (t : Side) → same_side r.side t ≡ false → SameHits t orders (insert i r orders)
  unfolding hits
  insert-SameHits t h j q =
      rw (hits-insert t q i j r orders, hits-other_side t q r h)
        (ground (arith, fresh, (==_iff i j).0))

  insert-here :
      (j : OrderId)
      → hits r.side r.price (lookup j (insert i r orders))
        ≡ hits r.side r.price (lookup j orders) + (if i == j then 1 else 0)
  unfolding hits
  insert-here j =
      rw (hits-insert r.side r.price i j r orders, hits_self r)
        (ground (arith, fresh, (==_iff i j).0))

append-ne-nil : (q : List Order) (o : Order) → q ++ (o ∷ []) ≢ []
append-ne-nil [] o h = ground arith
append-ne-nil (x ∷ q) o h = ground arith

abbrev pub ref_of : Order → LevelRef
ref_of o = record { side = o.side; price = o.price }

-- `addOrder` on a level that is known.
abbrev entered : Order → ℕ → PriceLevel → OrderBook → OrderBook
entered o elapsed l b =
    let b2 = store_level o.side o.price (Level.add_order l o) b in
    record b2 {
      orders = insert o.id (ref_of o) b2.orders;
      metrics = record b2.metrics {
        orders_added = add64 b2.metrics.orders_added 1;
        total_latency = b2.metrics.total_latency + elapsed;
      };
      cache_valid = false;
    }

pub get_or_create_level-found :
    (p : Price) (s : Side) (b : OrderBook) (l : PriceLevel)
    → find_level p (levels_of s b) ≡ some l
    → get_or_create_level p s b ≡ (l, b)
unfolding get_or_create_level
get_or_create_level-found p s b l found = rw (found, get_or_create_level)

pub get_or_create_level-missing :
    (p : Price) (s : Side) (b : OrderBook)
    → find_level p (levels_of s b) ≡ none
    → get_or_create_level p s b ≡ (new_level p s, store_level s p (new_level p s) b)
unfolding get_or_create_level store_level
get_or_create_level-missing p s b missing = rw (missing, get_or_create_level)

-- The level that `addOrder` finds or makes holds what rests at the order's price.
enter_order_lem :
    (o : Order) (elapsed : ℕ) (b : OrderBook)
    → Inv b
    → (l : PriceLevel) × LevelInv o.side o.price l
      × (l.queue ≡ queue_of o.side o.price b)
      × (enter_order o elapsed b ≡ entered o elapsed l b)
unfolding enter_order
enter_order_lem o elapsed b v = elim (Option-cases (find_level o.price (levels_of o.side b))) [
  | inl missing ↦ (
    new_level o.price o.side,
    new_level-LevelInv o.side o.price,
    sym (queue_at-find_none o.price (levels_of o.side b) missing),
    rw (get_or_create_level-missing o.price o.side b missing, enter_order)
        (ap (λ b'. finish b')
          (store_level-store_level o.side o.price (new_level o.price o.side) _ b)),
  )
  | inr (l, found) ↦ (
    l,
    find_level-All (λ e. LevelInv o.side e.0 e.1) o.price (levels_of o.side b) l found
        (side-Inv o.side v).levels,
    sym (queue_at-find_level o.price (levels_of o.side b) l found),
    rw (get_or_create_level-found o.price o.side b l found, enter_order) refl,
  )
]
  where
    finish : OrderBook → OrderBook
    finish b2 = record b2 {
      orders = insert o.id (ref_of o) b2.orders;
      metrics = record b2.metrics {
        orders_added = add64 b2.metrics.orders_added 1;
        total_latency = b2.metrics.total_latency + elapsed;
      };
      cache_valid = false;
    }

entered-Inv :
    (o : Order) (elapsed : ℕ) (l : PriceLevel) (b : OrderBook)
    → Inv b
    → lookup o.id b.orders ≡ none
    → o.remaining_quantity < 2 ^ 32
    → LevelInv o.side o.price l
    → l.queue ≡ queue_of o.side o.price b
    → Inv (entered o elapsed l b)
entered-Inv o elapsed l b v fresh small inv same =
    touch-Inv (store_level o.side o.price (Level.add_order l o) b) _ _ false (
      rw (store_level-orders o.side o.price (Level.add_order l o) b) (
        store_level-Inv o.side o.price (Level.add_order l o) b (insert o.id (ref_of o) b.orders) v
          (add_order-LevelInv inv o (record { side = refl; price = refl; remaining = small }))
          (unfold Level.add_order in append-ne-nil l.queue o)
          (unfold Level.add_order in
            λ j.
              occurs-append j l.queue o
              ∙ ap (λ n. n + (if o.id == j then 1 else 0))
                  (ap (occurs j) same ∙ (side-Inv o.side v).indexed j o.price)
              ∙ sym (insert-here b.orders o.id (ref_of o) fresh j))
          (insert-SameElsewhere b.orders o.id (ref_of o) fresh)
          (insert-SameHits b.orders o.id (ref_of o) fresh)))

-- On a book that satisfies the invariant, `addOrder` of an order whose remaining quantity fits 32 bits
-- keeps the invariant, whether it takes the order or refuses a known id.
pub add_order-Inv :
    (o : Order) (elapsed : ℕ) (b : OrderBook)
    → Inv b
    → o.remaining_quantity < 2 ^ 32
    → Inv (add_order o elapsed b).0
unfolding add_order
add_order-Inv o elapsed b v small = elim (Option-cases (lookup o.id b.orders)) [
  | inl fresh ↦
      let (l, inv, same, e) = enter_order_lem o elapsed b v in
      rw (fresh, add_order, e) (entered-Inv o elapsed l b v fresh small inv same)
  | inr (r, known) ↦ rw (known, add_order) v
]

-- On a book that satisfies the invariant, `addOrder` of an id that the book does not hold puts the order
-- behind all that rest at its side and price, and leaves every other queue as it was.
pub add_order-queue_of :
    (o : Order) (elapsed : ℕ) (b : OrderBook) (s : Side) (p : Price)
    → Inv b
    → lookup o.id b.orders ≡ none
    → queue_of s p (add_order o elapsed b).0 ≡ (
        if same_side o.side s && same_price o.price p
        then queue_of s p b ++ (o ∷ [])
        else queue_of s p b)
unfolding add_order
add_order-queue_of o elapsed b s p v fresh =
    let (l, inv, same, e) = enter_order_lem o elapsed b v in
    rw (fresh, add_order, e)
      (queue_of-touch (store_level o.side o.price (Level.add_order l o) b) _ _ false s p
        ∙ store_level-queue_of o.side o.price (Level.add_order l o) b (λ q. q ++ (o ∷ [])) s p
            (unfold Level.add_order in ap (λ q. q ++ (o ∷ [])) same))

-- A new order can be looked up at its level.
pub add_order-orders :
    (o : Order) (elapsed : ℕ) (b : OrderBook)
    → Inv b
    → lookup o.id b.orders ≡ none
    → lookup o.id (add_order o elapsed b).0.orders ≡ some (ref_of o)
unfolding add_order
add_order-orders o elapsed b v fresh =
    let (l, inv, same, e) = enter_order_lem o elapsed b v in
    rw (fresh, add_order, e) (lookup-insert o.id o.id (ref_of o) _ ∙ ground arith)
