-- ===== src/HeapMatch/Placed.antt =====
-- The book in the middle of the loops: a side, the index and the metrics are those of the loops.
use lobsimulater.Base.{
  ◌+◌, ◌≤◌, ◌≡◌, refl, ap, ◌∷◌, Option, none, some, Bool-cases, inl, inr, arith, lookup, erase,
  if◌then◌else◌,
}
use lobsimulater.Types.{
  Side, bid, ask, Order, Price, Quantity, before_irrefl, same_price_refl, is_filled,
}
use lobsimulater.Level
use lobsimulater.Level.{PriceLevel, occurs}
use lobsimulater.Levels.{Levels, LevelRef, queue_at, hits, put_level}
use lobsimulater.Levels.Index.{Orders, SideInv}
use lobsimulater.Book.{OrderBook, Metrics, levels_of, with_levels, store_level}
use lobsimulater.Fill
use lobsimulater.Fill.Keeps.{hits-pos}
use lobsimulater.HeapMatch.Front.{filled_order, filled_level}

abbrev pub placed : Side → Levels → Orders → Metrics → OrderBook → OrderBook
placed s m orders metrics b = record (with_levels s m b) { orders = orders; metrics = metrics }

pub levels_of-placed :
    (s : Side) (m : Levels) (orders : Orders) (metrics : Metrics) (b : OrderBook)
    → levels_of s (placed s m orders metrics b) ≡ m
unfolding levels_of with_levels
levels_of-placed bid m orders metrics b = refl
levels_of-placed ask m orders metrics b = refl

pub store_level-placed :
    (s : Side) (p : Price) (l l' : PriceLevel) (m : Levels) (orders : Orders) (metrics : Metrics)
    (b : OrderBook)
    → store_level s p l' (placed s ((p, l) ∷ m) orders metrics b)
      ≡ placed s ((p, l') ∷ m) orders metrics b
unfolding store_level with_levels levels_of put_level
store_level-placed bid p l l' m orders metrics b = rw (before_irrefl bid p) refl
store_level-placed ask p l l' m orders metrics b = rw (before_irrefl ask p) refl

pub with_levels-placed :
    (s : Side) (m n : Levels) (orders : Orders) (metrics : Metrics) (b : OrderBook)
    → with_levels s n (placed s m orders metrics b) ≡ placed s n orders metrics b
unfolding with_levels
with_levels-placed bid m n orders metrics b = refl
with_levels-placed ask m n orders metrics b = refl

pub placed_self : (s : Side) (b : OrderBook) → placed s (levels_of s b) b.orders b.metrics b ≡ b
unfolding levels_of with_levels
placed_self bid b = refl
placed_self ask b = refl

hits_le : (s : Side) (p : Price) (r : Option LevelRef) → hits s p r ≤ 1
unfolding hits
hits_le s p none = omega arith
hits_le s p (some r) = ground arith

-- The front order's id is in the index, and no order behind it has the id.
module _ (s : Side) (p : Price) (l : PriceLevel) (m : Levels) (orders : Orders) (o : Order) (os : _)
    (v : SideInv s ((p, l) ∷ m) orders) (e : l.queue ≡ o ∷ os) where
  times : 1 + occurs o.id os ≡ hits s p (lookup o.id orders)
  unfolding queue_at
  times = ground (arith, ap (occurs o.id) e, v.indexed o.id p, same_price_refl p)

  pub front_known : lookup o.id orders ≡ some (record { side = s; price = p })
  front_known = hits-pos s p (lookup o.id orders) (omega (arith, times))

  pub front_alone : occurs o.id os ≡ 0
  front_alone = omega (arith, times, hits_le s p (lookup o.id orders))

-- The book after a fill and what follows it.
pub fill-placed :
    (s : Side) (p : Price) (l : PriceLevel) (o : Order) (os : _) (fill : Quantity) (m : Levels)
    (orders : Orders) (metrics : Metrics) (b : OrderBook)
    → let o1 = filled_order o fill in
      let l1 = filled_level l o os fill in
      let b1 = placed s ((p, l1) ∷ m) orders metrics b in
      (if is_filled o1
        then record (store_level s p (Level.remove_order l1 o1) b1) {
          orders = erase o1.id b1.orders;
        }
        else b1)
      ≡ placed s ((p, Fill.fill_front l o os fill) ∷ m) (Fill.drop_filled o fill orders) metrics b
fill-placed s p l o os fill m orders metrics b =
    let o1 : Order = filled_order o fill in
    let l1 : PriceLevel = filled_level l o os fill in
    elim (Bool-cases (is_filled o1)) [
      | inr off ↦ rw off refl
      | inl on ↦ rw on (
          ap (λ (c : OrderBook). record c { orders = erase o.id orders })
            (store_level-placed s p l1 (Level.remove_order l1 o1) m orders metrics b))
    ]
