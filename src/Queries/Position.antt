-- ===== src/Queries/Position.antt =====
-- `OrderBook::getQueuePosition`, beside the queue of the order.
use lobsimulater.Base.{
  ℕ, ◌+◌, ◌%◌, ◌^◌, ◌<◌, ◌≡◌, refl, sym, ◌∙◌, ap, List, [], ◌∷◌, ◌++◌, none, some, if◌then◌else◌,
  ◌==◌, arith, lookup,
}
use lobsimulater.Types.{Order, OrderId, add32, same_side_refl, same_price_refl}
use lobsimulater.Level.{volume, occurs}
use lobsimulater.Levels.{LevelRef, hits}
use lobsimulater.Book.{OrderBook, add_order}
use lobsimulater.Book.Invariant.{Inv, queue_of, side-Inv}
use lobsimulater.Book.Add.{add_order-Inv, add_order-queue_of, add_order-orders}
use lobsimulater.Book.Change.{deref_lem}
use lobsimulater.Queries.{position_from, get_queue_position}

-- The orders ahead of one in a queue.
abbrev pub ahead : OrderId → List Order → List Order
ahead i [] = []
ahead i (o ∷ os) = if o.id == i then [] else o ∷ ahead i os

position_from-ahead :
    (v : ℕ) (i : OrderId) (q : List Order)
    → v < 2 ^ 32
    → position_from v i q ≡ (v + volume (ahead i q)) % 2 ^ 32
unfolding position_from
position_from-ahead v i [] small = omega arith
position_from-ahead v i (o ∷ q) small =
    ground (arith, position_from-ahead (add32 v o.remaining_quantity) i q)

-- On a book that satisfies the invariant, the queue position of an order that the index sends to `r` is
-- the quantity of the orders ahead of it there, modulo 2 ^ 32.
pub get_queue_position-ahead :
    (i : OrderId) (b : OrderBook) (r : LevelRef)
    → Inv b
    → lookup i b.orders ≡ some r
    → get_queue_position i b ≡ some (volume (ahead i (queue_of r.side r.price b)) % 2 ^ 32)
unfolding get_queue_position
get_queue_position-ahead i b r v known =
    let (l, o, t) = deref_lem i r b v known in
    rw (known, get_queue_position, t.reached)
      (ap some (
        position_from-ahead 0 i l.queue (omega arith)
        ∙ ap (λ q. (0 + volume (ahead i q)) % 2 ^ 32) (sym t.level_queue)
        ∙ omega arith))

ahead-append : (o : Order) (q : List Order) → occurs o.id q ≡ 0 → ahead o.id (q ++ (o ∷ [])) ≡ q
ahead-append o [] h = ground arith
ahead-append o (x ∷ q) h = ground (arith, ahead-append o q)

-- On a book that satisfies the invariant, an order that fits 32 bits and whose id is new has, once it
-- is added, all that rested at its side and price ahead of it, modulo 2 ^ 32.
pub get_queue_position-add_order :
    (o : Order) (elapsed : ℕ) (b : OrderBook)
    → Inv b
    → lookup o.id b.orders ≡ none
    → o.remaining_quantity < 2 ^ 32
    → get_queue_position o.id (add_order o elapsed b).0
      ≡ some (volume (queue_of o.side o.price b) % 2 ^ 32)
unfolding hits
get_queue_position-add_order o elapsed b v fresh small =
    get_queue_position-ahead o.id (add_order o elapsed b).0
      (record { side = o.side; price = o.price }) (add_order-Inv o elapsed b v small)
      (add_order-orders o elapsed b v fresh)
    ∙ ap (λ q. some (volume (ahead o.id q) % 2 ^ 32)) queued
    ∙ ap (λ q. some (volume q % 2 ^ 32)) (ahead-append o (queue_of o.side o.price b) absent)
  where
    queued :
        queue_of o.side o.price (add_order o elapsed b).0 ≡ queue_of o.side o.price b ++ (o ∷ [])
    queued =
        add_order-queue_of o elapsed b o.side o.price v fresh
        ∙ rw (same_side_refl o.side, same_price_refl o.price)

    hits-none : hits o.side o.price none ≡ 0
    hits-none = refl

    absent : occurs o.id (queue_of o.side o.price b) ≡ 0
    absent = (side-Inv o.side v).indexed o.id o.price ∙ ap (hits o.side o.price) fresh ∙ hits-none
