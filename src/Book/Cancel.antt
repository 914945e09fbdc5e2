-- ===== src/Book/Cancel.antt =====
-- `OrderBook::cancelOrder`: the invariant, the queues and the index.
use lobsimulater.Base.{
  ℕ, ◌+◌, ◌-◌, ◌≡◌, ◌≢◌, refl, sym, ◌∙◌, ap, subst, [], ◌∷◌, List, none, some, Bool, true, false,
  if◌then◌else◌, Option-cases, List-cases, inl, inr, lookup, erase, ◌==◌, arith, ◌&&◌, ◌↔◌,
}
use lobsimulater.Types.{Side, Order, OrderId, Price, same_side, same_price, add64}
use lobsimulater.Level
use lobsimulater.Level.{PriceLevel, occurs, find_order, unlink}
use lobsimulater.Level.Quantities.{LevelInv, remove_order-LevelInv, occurs-unlink}
use lobsimulater.Levels.{LevelRef, hits}
use lobsimulater.Levels.Index.{Orders, hits-erase, hits_self, hits-other_side, hits-other_price}
use lobsimulater.Book.{OrderBook, store_level, remove_empty_level, settle_level, cancel_order}
use lobsimulater.Book.Invariant.{
  Inv, SameHits, SameElsewhere, touch-Inv, side-Inv, store_level-Inv, remove_empty_level-Inv,
  store_level-orders, remove_empty_level-orders, queue_of, store_level-queue_of,
  queue_of-remove_empty_level, queue_of-touch, at_place,
}
use lobsimulater.Book.Change.{Target, deref_lem}

-- The index without a known id changes at that id's level only.
module _ (orders : Orders) (i : OrderId) (r : LevelRef) (known : lookup i orders ≡ some r) where
  pub erase-SameElsewhere : SameElsewhere r.side r.price orders (erase i orders)
  erase-SameElsewhere j q h = rw (hits-erase r.side q i j orders) (
      ground (
        arith,
        ap (hits r.side q) known,
        hits-other_price r.side q r h,
        ap (λ (k : OrderId). hits r.side q (lookup k orders)),
      ))

  pub erase-SameHits : (t : Side) → same_side r.side t ≡ false → SameHits t orders (erase i orders)
  erase-SameHits t h j q = rw (hits-erase t q i j orders) (
      ground (
        arith,
        ap (hits t q) known,
        hits-other_side t q r h,
        ap (λ (k : OrderId). hits t q (lookup k orders)),
      ))

  pub erase-here :
      (j : OrderId)
      → hits r.side r.price (lookup j (erase i orders)) ≡ (
          if i == j
          then hits r.side r.price (lookup j orders) - 1
          else hits r.side r.price (lookup j orders))
  erase-here j = rw (hits-erase r.side r.price i j orders) (
      ground (
        arith,
        ap (hits r.side r.price) known,
        hits_self r,
        ap (λ (k : OrderId). hits r.side r.price (lookup k orders)),
      ))

-- `cancelOrder` on a level and an order that are known.
abbrev canceled : OrderId → LevelRef → PriceLevel → Order → ℕ → OrderBook → OrderBook
canceled i r l o elapsed b =
    let b1 = settle_level r (Level.remove_order l o) b in
    record b1 {
      orders = erase i b1.orders;
      metrics = record b1.metrics {
        orders_canceled = add64 b1.metrics.orders_canceled 1;
        total_latency = b1.metrics.total_latency + elapsed;
      };
      cache_valid = false;
    }

module _ (i : OrderId) (r : LevelRef) (l : PriceLevel) (o : Order) (b : OrderBook) (v : Inv b)
    (known : lookup i b.orders ≡ some r) (t : Target i r b l o) where
  unqueued : (Level.remove_order l o).queue ≡ unlink o.id l.queue
  unfolding Level.remove_order
  unqueued = refl

  rest-LevelInv : LevelInv r.side r.price (Level.remove_order l o)
  rest-LevelInv = remove_order-LevelInv t.level_inv o t.found

  rest-occurs :
      (j : OrderId)
      → occurs j (Level.remove_order l o).queue ≡ hits r.side r.price (lookup j (erase i b.orders))
  unfolding Level.remove_order
  rest-occurs j =
      occurs-unlink o.id j l.queue
      ∙ ground (
        arith,
        t.order_id,
        erase-here b.orders i r known j,
        ap (occurs j) t.level_queue,
        (side-Inv r.side v).indexed j r.price,
      )

  pub settle-empty :
      (Level.remove_order l o).queue ≡ []
      → settle_level r (Level.remove_order l o) b ≡ remove_empty_level r.price r.side b
  unfolding settle_level
  settle-empty e = rw (e, rest-LevelInv.price, rest-LevelInv.side) refl

  pub settle-full :
      (x : Order) (q : List Order)
      → (Level.remove_order l o).queue ≡ x ∷ q
      → settle_level r (Level.remove_order l o) b
        ≡ store_level r.side r.price (Level.remove_order l o) b
  unfolding settle_level
  settle-full x q e = rw e refl

  pub settle_level-orders : (settle_level r (Level.remove_order l o) b).orders ≡ b.orders
  unfolding settle_level
  settle_level-orders = elim (List-cases (Level.remove_order l o).queue) [
    | inl e ↦ ap (λ c. c.orders) (settle-empty e) ∙ remove_empty_level-orders r.side r.price b
    | inr (x, q, e) ↦
        ap (λ c. c.orders) (settle-full x q e)
        ∙ store_level-orders r.side r.price (Level.remove_order l o) b
  ]

  filled :
      (x : Order) (q : List Order)
      → (Level.remove_order l o).queue ≡ x ∷ q
      → (Level.remove_order l o).queue ≢ []
  filled x q e z = cc

  settle_level-Inv :
      Inv (record (settle_level r (Level.remove_order l o) b) { orders = erase i b.orders })
  settle_level-Inv = elim (List-cases (Level.remove_order l o).queue) [
    | inl e ↦ rw (settle-empty e) (
        remove_empty_level-Inv r.side r.price b (erase i b.orders) v
          (λ j. sym (rest-occurs j) ∙ ap (occurs j) e) (erase-SameElsewhere b.orders i r known)
          (erase-SameHits b.orders i r known))
    | inr (x, q, e) ↦ rw (settle-full x q e) (
        store_level-Inv r.side r.price (Level.remove_order l o) b (erase i b.orders) v rest-LevelInv
          (λ z. filled x q e z) rest-occurs (erase-SameElsewhere b.orders i r known)
          (erase-SameHits b.orders i r known))
  ]

  settle_level-queue_of :
      (s : Side) (p : Price)
      → queue_of s p (settle_level r (Level.remove_order l o) b) ≡ (
          if same_side r.side s && same_price r.price p
          then unlink i (queue_of s p b)
          else queue_of s p b)
  settle_level-queue_of s p = elim (List-cases (Level.remove_order l o).queue) [
    | inl e ↦ rw (settle-empty e) (
        queue_of-remove_empty_level r.side r.price b s p
        ∙ ap (λ q. if same_side r.side s && same_price r.price p then q else queue_of s p b)
            (sym e ∙ unlinked)
        ∙ at_place r.side r.price s p b (unlink i))
    | inr (x, q, e) ↦
        rw (settle-full x q e)
          (store_level-queue_of r.side r.price (Level.remove_order l o) b (unlink i) s p unlinked)
  ]
    where
      unlinked : (Level.remove_order l o).queue ≡ unlink i (queue_of r.side r.price b)
      unlinked = rw t.level_queue (unqueued ∙ ap (λ j. unlink j l.queue) t.order_id)

  canceled-Inv : (elapsed : ℕ) → Inv (canceled i r l o elapsed b)
  canceled-Inv elapsed =
      touch-Inv (settle_level r (Level.remove_order l o) b) _ _ false
        (rw settle_level-orders settle_level-Inv)

-- On a book that satisfies the invariant, `cancelOrder` follows no pointer that dangles and keeps the
-- invariant; it returns false exactly if the book does not hold the id.
pub cancel_order-Inv :
    (i : OrderId) (elapsed : ℕ) (b : OrderBook)
    → Inv b
    → (b' : OrderBook) × (ok : Bool) × (cancel_order i elapsed b ≡ some (b', ok))
      × Inv b'
      × (ok ≡ false ↔ lookup i b.orders ≡ none)
unfolding cancel_order
cancel_order-Inv i elapsed b v = elim (Option-cases (lookup i b.orders)) [
  | inl unknown ↦ (b, false, rw (unknown, cancel_order), v, (λ _. unknown, λ _. refl))
  | inr (r, known) ↦
      let (l, o, t) = deref_lem i r b v known in
      (
        canceled i r l o elapsed b,
        true,
        rw (known, cancel_order, t.reached),
        canceled-Inv i r l o b v known t elapsed,
        (λ e. cc, λ e. absurd (ground (arith, known))),
      )
]

-- On a book that satisfies the invariant, a `cancelOrder` that returns true for the id that the index
-- sends to `r` changes the queue of that side and price alone, which loses the order, and takes the id
-- out of the index.
pub cancel_order-queue_of :
    (i : OrderId) (elapsed : ℕ) (b b' : OrderBook) (r : LevelRef) (s : Side) (p : Price)
    → Inv b
    → lookup i b.orders ≡ some r
    → cancel_order i elapsed b ≡ some (b', true)
    → (queue_of s p b' ≡ (
        if same_side r.side s && same_price r.price p
        then unlink i (queue_of s p b)
        else queue_of s p b))
      × (b'.orders ≡ erase i b.orders)
unfolding cancel_order
cancel_order-queue_of i elapsed b b' r s p v known e =
    let (l, o, t) = deref_lem i r b v known in
    let done : cancel_order i elapsed b ≡ some (canceled i r l o elapsed b, true) =
      rw (known, cancel_order, t.reached) in
    let same : canceled i r l o elapsed b ≡ b' = cc done in
    subst
      (λ c.
        (queue_of s p c ≡ (
          if same_side r.side s && same_price r.price p
          then unlink i (queue_of s p b)
          else queue_of s p b))
        × (c.orders ≡ erase i b.orders))
      same
      (
        queue_of-touch (settle_level r (Level.remove_order l o) b) _ _ false s p
            ∙ settle_level-queue_of i r l o b v known t s p,
        ap (erase i) (settle_level-orders i r l o b v known t),
      )
