-- ===== src/Levels/Index.antt =====
-- `orders_` agrees with the queues: an id stands in the queue of the level to which the index sends
-- it, once, and nowhere else. So no pointer of the index dangles, and no two orders share an id.
use lobsimulater.Base.{
  ◌≡◌, refl, sym, ap, ◌∙◌, [], some, false, if◌then◌else◌, arith, All, Bool-cases, inl, inr, ◌==◌,
  Dictionary, lookup, insert, erase, lookup-insert, lookup-erase, Option-cases,
}
use lobsimulater.Types.{
  Order, Side, Price, OrderId, same_side, same_side_refl, same_price, same_price-eq,
  same_price_refl,
}
use lobsimulater.Level.{PriceLevel, occurs, find_order}
use lobsimulater.Level.Quantities.{LevelInv, occurs-find_order}
use lobsimulater.Levels.{Levels, LevelRef, find_level, put_level, erase_level, queue_at, hits}
use lobsimulater.Levels.Order.{
  IsSorted, put_level-IsSorted, erase_level-IsSorted, put_level-All, erase_level-All,
  queue_at-put_level, queue_at-erase_level, queue_at-find_none, queue_at-find_level,
}

abbrev pub Orders : Type 0
Orders = Dictionary LevelRef

abbrev pub Indexed : Side → Levels → Orders → Type 0
Indexed s m orders =
    (i : OrderId) (p : Price) → occurs i (queue_at p m) ≡ hits s p (lookup i orders)

-- One side of the book beside the index.
pub record SideInv (s : Side) (m : Levels) (orders : Orders) : Type 0 where
  pub sorted : IsSorted s m
  pub levels : All (λ e. LevelInv s e.0 e.1) m
  pub indexed : Indexed s m orders

pub hits-insert :
    (s : Side) (p : Price) (i j : OrderId) (r : LevelRef) (orders : Orders)
    → hits s p (lookup j (insert i r orders))
      ≡ (if i == j then hits s p (some r) else hits s p (lookup j orders))
hits-insert s p i j r orders = ground (arith, lookup-insert j i r orders)

pub hits-erase :
    (s : Side) (p : Price) (i j : OrderId) (orders : Orders)
    → hits s p (lookup j (erase i orders)) ≡ (if i == j then 0 else hits s p (lookup j orders))
unfolding hits
hits-erase s p i j orders = ground (arith, lookup-erase j i orders)

-- A reference hits its own level, and no other.
pub hits_self : (r : LevelRef) → hits r.side r.price (some r) ≡ 1
unfolding hits
hits_self r = rw (same_side_refl r.side, same_price_refl r.price) refl

pub hits-other_side :
    (s : Side) (p : Price) (r : LevelRef) → same_side r.side s ≡ false → hits s p (some r) ≡ 0
unfolding hits
hits-other_side s p r h = rw h refl

pub hits-other_price :
    (s : Side) (p : Price) (r : LevelRef) → same_price r.price p ≡ false → hits s p (some r) ≡ 0
unfolding hits
hits-other_price s p r h = ground arith

module _ {s : Side} {m : Levels} {orders : Orders} (v : SideInv s m orders) (orders' : Orders) where
  -- An index that sends the same ids to this side.
  pub keep-SideInv :
      ((i : OrderId) (p : Price) → hits s p (lookup i orders') ≡ hits s p (lookup i orders))
      → SideInv s m orders'
  keep-SideInv same = record {
    sorted = v.sorted;
    levels = v.levels;
    indexed = λ i p. v.indexed i p ∙ sym (same i p);
  }

  module _ (p : Price)
      (same : (i : OrderId) (r : Price)
        → same_price p r ≡ false
        → hits s r (lookup i orders') ≡ hits s r (lookup i orders)) where
    pub put_level-SideInv :
        (l : PriceLevel)
        → LevelInv s p l
        → ((i : OrderId) → occurs i l.queue ≡ hits s p (lookup i orders'))
        → SideInv s (put_level s p l m) orders'
    put_level-SideInv l inv at = record {
      sorted = put_level-IsSorted s p l m v.sorted;
      levels = put_level-All (λ e. LevelInv s e.0 e.1) s p l m inv v.levels;
      indexed = λ i r. elim (Bool-cases (same_price p r)) [
        | inl here ↦
            rw (queue_at-put_level s p l m r, here)
              (at i ∙ ap (λ x. hits s x (lookup i orders')) (same_price-eq p r here))
        | inr there ↦
            rw (queue_at-put_level s p l m r, there) (v.indexed i r ∙ sym (same i r there))
      ];
    }

    pub erase_level-SideInv :
        ((i : OrderId) → hits s p (lookup i orders') ≡ 0) → SideInv s (erase_level p m) orders'
    erase_level-SideInv gone = record {
      sorted = erase_level-IsSorted s p m v.sorted;
      levels = erase_level-All (λ e. LevelInv s e.0 e.1) p m v.levels;
      indexed = λ i r. elim (Bool-cases (same_price p r)) [
        | inl here ↦
            rw (queue_at-erase_level p m r, here)
              (sym (gone i) ∙ ap (λ x. hits s x (lookup i orders')) (same_price-eq p r here))
        | inr there ↦ rw (queue_at-erase_level p m r, there) (v.indexed i r ∙ sym (same i r there))
      ];
    }

-- The pointer that the index gives for an id can be followed.
pub SideInv-find :
    {m : Levels} {orders : Orders} (i : OrderId) (r : LevelRef)
    → SideInv r.side m orders
    → lookup i orders ≡ some r
    → (l : PriceLevel) × (o : Order) × (find_level r.price m ≡ some l)
      × (find_order i l.queue ≡ some o)
SideInv-find {m} {orders} i r v h = elim (Option-cases (find_level r.price m)) [
  | inl missing ↦ absurd (absent (queue_at-find_none r.price m missing))
  | inr (l, found) ↦ elim (Option-cases (find_order i l.queue)) [
    | inl lost ↦
        absurd (empty l (queue_at-find_level r.price m l found) (occurs-find_order i l.queue lost))
    | inr (o, got) ↦ (l, o, found, got)
  ]
]
  where
    once : occurs i (queue_at r.price m) ≡ 1
    once = v.indexed i r.price ∙ ap (hits r.side r.price) h ∙ hits_self r

    absent : queue_at r.price m ≡ [] → ⊥
    absent e = omega (arith, once, ap (occurs i) e)

    empty : (l : PriceLevel) → queue_at r.price m ≡ l.queue → occurs i l.queue ≡ 0 → ⊥
    empty l e z = omega (arith, once, ap (occurs i) e, z)
