-- ===== src/Book/Change.antt =====
-- `OrderBook::modifyOrder`: the order behind a pointer of the index, the invariant and the queues.
use lobsimulater.Base.{
  ℕ, ◌+◌, ◌<◌, ◌≤◌, ◌^◌, ◌≡◌, ◌≢◌, refl, sym, ◌∙◌, ap, subst, [], ◌∷◌, ◌++◌, List, none, some, Bool,
  true, false, if◌then◌else◌, Option-cases, Bool-cases, inl, inr, lookup, arith, ◌&&◌, ltb, max,
  ◌↔◌,
}
use lobsimulater.Types.{Side, Order, OrderId, Price, Quantity, same_side, same_price, add64}
use lobsimulater.Level
use lobsimulater.Level.{PriceLevel, occurs, find_order, unlink, replace_order}
use lobsimulater.Level.Quantities.{
  LevelInv, OrderFits, remove_order-LevelInv, modify_order-LevelInv, add_order-LevelInv,
  occurs-append, occurs-unlink, occurs-replace_order, find_order-occurs, find_order-id,
  find_order-All,
}
use lobsimulater.Levels.{LevelRef}
use lobsimulater.Levels.Order.{find_level-All, queue_at-find_level}
use lobsimulater.Levels.Index.{SideInv-find}
use lobsimulater.Book.{OrderBook, levels_of, store_level, deref, requeue, modify_order}
use lobsimulater.Book.Invariant.{
  Inv, touch-Inv, side-Inv, store_level-Inv, store_level-orders, queue_of, store_level-queue_of,
  queue_of-touch,
}

-- What stands behind a pointer of the index.
pub record Target (i : OrderId) (r : LevelRef) (b : OrderBook) (l : PriceLevel) (o : Order)
    : Type 0 where
  pub level_inv : LevelInv r.side r.price l
  pub level_queue : queue_of r.side r.price b ≡ l.queue
  pub order_id : o.id ≡ i
  pub found : find_order o.id l.queue ≡ some o
  pub reached : deref i r b ≡ some (l, o)

pub deref_lem :
    (i : OrderId) (r : LevelRef) (b : OrderBook)
    → Inv b
    → lookup i b.orders ≡ some r
    → (l : PriceLevel) × (o : Order) × Target i r b l o
unfolding deref
deref_lem i r b v h =
    let (l, o, at, on) = SideInv-find i r (side-Inv r.side v) h in
    let same = find_order-id i l.queue o on in
    (
      l,
      o,
      record {
        level_inv =
            find_level-All (λ e. LevelInv r.side e.0 e.1) r.price (levels_of r.side b) l at
              (side-Inv r.side v).levels;
        level_queue = queue_at-find_level r.price (levels_of r.side b) l at;
        order_id = same;
        found = subst (λ j. find_order j l.queue ≡ some o) (sym same) on;
        reached = rw (at, deref, on);
      },
    )

pub found-occurs :
    (i : OrderId) (q : List Order) (o : Order) → find_order i q ≡ some o → 1 ≤ occurs i q
found-occurs i q o h = ground (arith, find_order-occurs i q)

-- A modification leaves the ids of the queue as they are.
requeue-occurs :
    (j : OrderId) (l : PriceLevel) (o : Order) (n : Quantity)
    → find_order o.id l.queue ≡ some o
    → occurs j (requeue l o n).queue ≡ occurs j l.queue
unfolding requeue Level.add_order Level.remove_order Level.modify_order
requeue-occurs j l o n h = ground (
  arith,
  occurs-append j (unlink o.id l.queue) (record o { remaining_quantity = n; quantity = n }),
  occurs-unlink o.id j l.queue,
  occurs-replace_order o.id j (record o { remaining_quantity = n; quantity = max o.quantity n })
      l.queue,
  found-occurs o.id l.queue o,
)

requeue-LevelInv :
    (s : Side) (p : Price) (l : PriceLevel) (o : Order) (n : Quantity)
    → LevelInv s p l
    → find_order o.id l.queue ≡ some o
    → n < 2 ^ 32
    → LevelInv s p (requeue l o n)
unfolding requeue
requeue-LevelInv s p l o n v h small = elim (Bool-cases (ltb o.remaining_quantity n)) [
  | inl more ↦ rw more (
      add_order-LevelInv (remove_order-LevelInv v o h) _
        (record { side = fits.side; price = fits.price; remaining = small }))
  | inr less ↦ rw less (modify_order-LevelInv v o n h small)
]
  where
    fits : OrderFits s p o
    fits = find_order-All (OrderFits s p) o.id l.queue o h v.orders

pub occurs-ne-nil : (i : OrderId) (q : List Order) → 1 ≤ occurs i q → q ≢ []
occurs-ne-nil i [] h e = omega arith
occurs-ne-nil i (x ∷ q) h e = ground arith

-- `modifyOrder` on a level and an order that are known.
abbrev modified : LevelRef → PriceLevel → Order → Quantity → ℕ → OrderBook → OrderBook
modified r l o n elapsed b =
    let b1 = store_level r.side r.price (requeue l o n) b in
    record b1 {
      metrics = record b1.metrics {
        orders_modified = add64 b1.metrics.orders_modified 1;
        total_latency = b1.metrics.total_latency + elapsed;
      };
      cache_valid = false;
    }

modified-Inv :
    (i : OrderId) (r : LevelRef) (l : PriceLevel) (o : Order) (n : Quantity) (elapsed : ℕ)
    (b : OrderBook)
    → Inv b
    → Target i r b l o
    → n < 2 ^ 32
    → Inv (modified r l o n elapsed b)
modified-Inv i r l o n elapsed b v t small =
    touch-Inv (store_level r.side r.price (requeue l o n) b) _ _ false (
      rw (store_level-orders r.side r.price (requeue l o n) b) (
        store_level-Inv r.side r.price (requeue l o n) b b.orders v
          (requeue-LevelInv r.side r.price l o n t.level_inv t.found small)
          (occurs-ne-nil o.id _
            (omega (arith, requeue-occurs o.id l o n t.found, found-occurs o.id l.queue o t.found)))
          (λ j.
            requeue-occurs j l o n t.found
            ∙ ap (occurs j) (sym t.level_queue)
            ∙ (side-Inv r.side v).indexed j r.price)
          (λ j p off. refl) (λ s off j p. refl)))

-- On a book that satisfies the invariant, `modifyOrder` to a quantity that fits 32 bits follows no
-- pointer that dangles and keeps the invariant; it returns false exactly if the book does not hold the
-- id.
pub modify_order-Inv :
    (i : OrderId) (n : Quantity) (elapsed : ℕ) (b : OrderBook)
    → Inv b
    → n < 2 ^ 32
    → (b' : OrderBook) × (ok : Bool) × (modify_order i n elapsed b ≡ some (b', ok))
      × Inv b'
      × (ok ≡ false ↔ lookup i b.orders ≡ none)
unfolding modify_order
modify_order-Inv i n elapsed b v small = elim (Option-cases (lookup i b.orders)) [
  | inl unknown ↦ (b, false, rw (unknown, modify_order), v, (λ _. unknown, λ _. refl))
  | inr (r, known) ↦
      let (l, o, t) = deref_lem i r b v known in
      (
        modified r l o n elapsed b,
        true,
        rw (known, modify_order, t.reached),
        modified-Inv i r l o n elapsed b v t small,
        (λ e. cc, λ e. absurd (ground (arith, known))),
      )
]

-- Price-time priority under a modification: a larger quantity sends the order to the back of the
-- queue, a smaller one leaves it in its place.
abbrev pub reposition : OrderId → Quantity → List Order → List Order
reposition i n q = elim (find_order i q) [
  | none ↦ q
  | some o ↦
      if ltb o.remaining_quantity n
      then unlink i q ++ (record o { remaining_quantity = n; quantity = n } ∷ [])
      else replace_order i (record o { remaining_quantity = n; quantity = max o.quantity n }) q
]

requeue-reposition :
    (i : OrderId) (n : Quantity) (l : PriceLevel) (o : Order) (q : List Order)
    → o.id ≡ i
    → find_order o.id l.queue ≡ some o
    → q ≡ l.queue
    → (requeue l o n).queue ≡ reposition i n q
unfolding requeue Level.add_order Level.remove_order Level.modify_order
requeue-reposition i n l o q same h e = ground arith

-- On a book that satisfies the invariant, a `modifyOrder` that returns true for the id that the index
-- sends to `r` changes the queue of that side and price alone: a larger quantity sends the order to the
-- back with its new size, any other leaves it in its place with its new remaining quantity.
pub modify_order-queue_of :
    (i : OrderId) (n : Quantity) (elapsed : ℕ) (b b' : OrderBook) (r : LevelRef) (s : Side)
    (p : Price)
    → Inv b
    → lookup i b.orders ≡ some r
    → modify_order i n elapsed b ≡ some (b', true)
    → queue_of s p b' ≡ (
        if same_side r.side s && same_price r.price p
        then reposition i n (queue_of s p b)
        else queue_of s p b)
unfolding modify_order
modify_order-queue_of i n elapsed b b' r s p v known e =
    let (l, o, t) = deref_lem i r b v known in
    let done : modify_order i n elapsed b ≡ some (modified r l o n elapsed b, true) =
      rw (known, modify_order, t.reached) in
    let same : modified r l o n elapsed b ≡ b' = cc done in
    subst
      (λ c. queue_of s p c ≡ (
        if same_side r.side s && same_price r.price p
        then reposition i n (queue_of s p b)
        else queue_of s p b))
      same
      (queue_of-touch (store_level r.side r.price (requeue l o n) b) _ _ false s p
        ∙ store_level-queue_of r.side r.price (requeue l o n) b (reposition i n) s p
            (requeue-reposition i n l o _ t.order_id t.found t.level_queue))
