-- ===== src/Fill/Keeps.antt =====
-- A fill of a front order: the level's counters, the index and the quantity of the side.
mod Drop
pub use Drop.*
use lobsimulater.Base.{
  ◌+◌, ◌-◌, ◌<◌, ◌≤◌, ◌^◌, ◌%◌, ◌≡◌, ◌≢◌, refl, sym, ◌∙◌, ap, subst, [], ◌∷◌, List, Option, none,
  some, false, if◌then◌else◌, Bool-cases, inl, inr, lookup, erase, ◌==◌, arith, is_empty, All,
  length, List-cases,
}
use lobsimulater.Types.{
  Side, Order, OrderId, Price, Quantity, same_side, same_side-eq, same_price, same_price-eq,
  same_price_refl, sub32, before_irrefl,
}
use lobsimulater.Level
use lobsimulater.Level.{PriceLevel, occurs, volume, unlink}
use lobsimulater.Level.Quantities.{LevelInv, OrderFits}
use lobsimulater.Levels.{Levels, LevelRef, queue_at, hits, put_level, side_volume}
use lobsimulater.Levels.Order.{queue_at-AllAfter}
use lobsimulater.Levels.Index.{Orders, SideInv, put_level-SideInv}
use lobsimulater.Book.Invariant.{NoEmpty, SameHits, SameElsewhere}
use lobsimulater.Book.Cancel.{erase-SameElsewhere, erase-SameHits, erase-here}
use lobsimulater.Fill.{fill_front, drop_filled, drop_front}

pub hits-pos :
    (s : Side) (p : Price) (x : Option LevelRef)
    → 1 ≤ hits s p x
    → x ≡ some (record { side = s; price = p })
unfolding hits
hits-pos s p none h = absurd (omega arith)
hits-pos s p (some r) h = ground (arith, same_side-eq r.side s, same_price-eq r.price p)

-- The queue after a fill.
pub fill_front-queue :
    (l : PriceLevel) (o : Order) (os : List Order) (fill : Quantity)
    → o.remaining_quantity < 2 ^ 32
    → fill ≤ o.remaining_quantity
    → (fill_front l o os fill).queue ≡ (
        if o.remaining_quantity == fill
        then os
        else record o { remaining_quantity = o.remaining_quantity - fill } ∷ os)
unfolding Level.remove_order unlink
fill_front-queue l o os fill small le = ground arith

pub drop_filled_lem :
    (o : Order) (fill : Quantity) (orders : Orders)
    → o.remaining_quantity < 2 ^ 32
    → fill ≤ o.remaining_quantity
    → drop_filled o fill orders
      ≡ (if o.remaining_quantity == fill then erase o.id orders else orders)
drop_filled_lem o fill orders small le = ground arith

pub fill_front-volume :
    (l : PriceLevel) (o : Order) (os : List Order) (fill : Quantity)
    → o.remaining_quantity < 2 ^ 32
    → fill ≤ o.remaining_quantity
    → volume (fill_front l o os fill).queue + fill ≡ volume (o ∷ os)
fill_front-volume l o os fill small le = rw (fill_front-queue l o os fill small le) (ground arith)

-- The counters after a fill.
fill_front-total :
    (l : PriceLevel) (o : Order) (os : List Order) (fill : Quantity)
    → (fill_front l o os fill).total_quantity ≡ (
        if sub32 o.remaining_quantity fill == 0
        then sub32 (sub32 l.total_quantity fill) (sub32 o.remaining_quantity fill)
        else sub32 l.total_quantity fill)
unfolding Level.remove_order
fill_front-total l o os fill = ground arith

fill_front-count :
    (l : PriceLevel) (o : Order) (os : List Order) (fill : Quantity)
    → (fill_front l o os fill).order_count
      ≡ (if sub32 o.remaining_quantity fill == 0 then sub32 l.order_count 1 else l.order_count)
unfolding Level.remove_order
fill_front-count l o os fill = ground arith

fill_front-key :
    (l : PriceLevel) (o : Order) (os : List Order) (fill : Quantity)
    → ((fill_front l o os fill).price ≡ l.price) × ((fill_front l o os fill).side ≡ l.side)
unfolding Level.remove_order
fill_front-key l o os fill = ground arith

module _ (s : Side) (p : Price) (l : PriceLevel) (o : Order) (os : List Order) (fill : Quantity)
    (e : l.queue ≡ o ∷ os) (le : fill ≤ o.remaining_quantity) (v : LevelInv s p l) where
  abbrev after : PriceLevel
  after = fill_front l o os fill

  fits : All (OrderFits s p) (o ∷ os)
  fits = subst (All (OrderFits s p)) e v.orders

  pub front_small : o.remaining_quantity < 2 ^ 32
  front_small = fits.0.remaining

  after-total : after.total_quantity ≡ volume after.queue % 2 ^ 32
  after-total = ground (
    arith,
    fill_front-total l o os fill,
    fill_front-volume l o os fill front_small le,
    v.total,
    ap volume e,
    front_small,
  )

  after-count : after.order_count ≡ length after.queue % 2 ^ 32
  after-count = ground (
    arith,
    fill_front-count l o os fill,
    ap (λ (q : List Order). length q) (fill_front-queue l o os fill front_small le),
    v.count,
    ap (λ (q : List Order). length q) e,
    front_small,
  )

  after-orders : All (OrderFits s p) after.queue
  after-orders =
      rw (fill_front-queue l o os fill front_small le)
        (elim (Bool-cases (o.remaining_quantity == fill)) [
          | inl done ↦ rw done fits.1
          | inr more ↦ rw more (
            record {
              side = fits.0.side;
              price = fits.0.price;
              remaining = omega (arith, front_small);
            },
            fits.1,
          )
        ])

  pub fill_front-LevelInv : LevelInv s p (fill_front l o os fill)
  fill_front-LevelInv = record {
    price = (fill_front-key l o os fill).0 ∙ v.price;
    side = (fill_front-key l o os fill).1 ∙ v.side;
    total = after-total;
    count = after-count;
    orders = after-orders;
  }

pub put_level-front :
    (s : Side) (p : Price) (l k : PriceLevel) (m : Levels)
    → put_level s p k ((p, l) ∷ m) ≡ (p, k) ∷ m
unfolding put_level
put_level-front s p l k m = rw (before_irrefl s p) refl

-- One fill on the best level of a side.
module _ (s : Side) (p : Price) (l : PriceLevel) (m : Levels) (orders : Orders) (o : Order)
    (os : List Order) (fill : Quantity) (v : SideInv s ((p, l) ∷ m) orders) (e : l.queue ≡ o ∷ os)
    (le : fill ≤ o.remaining_quantity) where
  abbrev ref : LevelRef
  ref = record { side = s; price = p }

  head_inv : LevelInv s p l
  head_inv = v.levels.0

  head_indexed : (j : OrderId) → occurs j (o ∷ os) ≡ hits s p (lookup j orders)
  unfolding queue_at
  head_indexed j = ap (occurs j) (sym e) ∙ rw (same_price_refl p) at (v.indexed j p)

  known : lookup o.id orders ≡ some ref
  known = hits-pos s p (lookup o.id orders) (ground (arith, head_indexed o.id))

  small : o.remaining_quantity < 2 ^ 32
  small = front_small s p l o os fill e le head_inv

  index_same : SameElsewhere s p orders (drop_filled o fill orders)
  index_same =
      rw (drop_filled_lem o fill orders small le)
        (elim (Bool-cases (o.remaining_quantity == fill)) [
          | inl done ↦ rw done (erase-SameElsewhere orders o.id ref known)
          | inr more ↦ rw more (λ j r off. refl)
        ])

  index_here :
      (j : OrderId)
      → occurs j (fill_front l o os fill).queue ≡ hits s p (lookup j (drop_filled o fill orders))
  index_here j =
      rw (drop_filled_lem o fill orders small le, fill_front-queue l o os fill small le)
        (elim (Bool-cases (o.remaining_quantity == fill)) [
          | inl done ↦ rw done (
              ground (
                arith,
                erase-here orders o.id ref known j,
                head_indexed j,
                known,
                head_indexed o.id,
              ))
          | inr more ↦ rw more (head_indexed j)
        ])

  pub fill-SideInv : SideInv s ((p, fill_front l o os fill) ∷ m) (drop_filled o fill orders)
  fill-SideInv = rw (← put_level-front s p l (fill_front l o os fill) m) (
      put_level-SideInv v (drop_filled o fill orders) p index_same (fill_front l o os fill)
        (fill_front-LevelInv s p l o os fill e le head_inv) index_here)

  pub fill-SameHits :
      (t : Side) → same_side s t ≡ false → SameHits t orders (drop_filled o fill orders)
  fill-SameHits t off =
      rw (drop_filled_lem o fill orders small le)
        (elim (Bool-cases (o.remaining_quantity == fill)) [
          | inl done ↦ rw done (erase-SameHits orders o.id ref known t off)
          | inr more ↦ rw more (λ j r. refl)
        ])

  pub fill-side_volume :
      side_volume ((p, fill_front l o os fill) ∷ m) + fill ≡ side_volume ((p, l) ∷ m)
  fill-side_volume = omega (arith, fill_front-volume l o os fill small le, ap volume e)
