-- ===== src/Fill/Keeps/Drop.antt =====
-- The removal of a best level without orders: the map, the index and the quantity of the side.
use lobsimulater.Base.{
  ◌≡◌, ◌≢◌, refl, sym, ◌∙◌, ap, [], ◌∷◌, List, if◌then◌else◌, Bool-cases, inl, inr, arith, is_empty,
  List-cases,
}
use lobsimulater.Types.{Side, Order, Price, same_price, same_price-eq}
use lobsimulater.Level.{PriceLevel, occurs, volume}
use lobsimulater.Levels.{Levels, queue_at, side_volume}
use lobsimulater.Levels.Order.{queue_at-AllAfter}
use lobsimulater.Levels.Index.{Orders, SideInv}
use lobsimulater.Book.Invariant.{NoEmpty}
use lobsimulater.Fill.{drop_front}

pub drop_front-empty :
    (p : Price) (l : PriceLevel) (m : Levels) → l.queue ≡ [] → drop_front ((p, l) ∷ m) ≡ m
drop_front-empty p l m e = ap (λ q. if is_empty q then m else (p, l) ∷ m) e

pub drop_front-full :
    (p : Price) (l : PriceLevel) (m : Levels) (x : Order) (q : List Order)
    → l.queue ≡ x ∷ q
    → drop_front ((p, l) ∷ m) ≡ (p, l) ∷ m
drop_front-full p l m x q e = ap (λ r. if is_empty r then m else (p, l) ∷ m) e

cons-ne-nil : (q r : List Order) (x : Order) → q ≡ x ∷ r → q ≢ []
cons-ne-nil q r x e z = cc

pub drop_front-SideInv :
    (s : Side) (m : Levels) (orders : Orders) → SideInv s m orders → SideInv s (drop_front m) orders
unfolding queue_at
drop_front-SideInv s [] orders v = v
drop_front-SideInv s ((p, l) ∷ m) orders v = elim (List-cases l.queue) [
  | inr (x, q, e) ↦ rw (drop_front-full p l m x q e) v
  | inl e ↦ rw (drop_front-empty p l m e) (record {
    sorted = v.sorted.1;
    levels = v.levels.1;
    indexed = λ i r. elim (Bool-cases (same_price p r)) [
      | inr off ↦ rw off at (v.indexed i r)
      | inl on ↦
          ap (occurs i) (rw (same_price-eq p r on) at (queue_at-AllAfter s p m v.sorted.0) ∙ sym e)
          ∙ rw on at (v.indexed i r)
    ];
  })
]

pub drop_front-side_volume : (m : Levels) → side_volume (drop_front m) ≡ side_volume m
drop_front-side_volume [] = refl
drop_front-side_volume ((p, l) ∷ m) = elim (List-cases l.queue) [
  | inl e ↦ rw (drop_front-empty p l m e) (omega (arith, ap volume e))
  | inr (x, q, e) ↦ ap side_volume (drop_front-full p l m x q e)
]

-- All levels behind the best hold orders.
abbrev pub TailFull : Levels → Type 0
TailFull [] = Unit
TailFull ((p, l) ∷ m) = NoEmpty m

pub NoEmpty-TailFull : (m : Levels) → NoEmpty m → TailFull m
NoEmpty-TailFull [] f = tt
NoEmpty-TailFull ((p, l) ∷ m) f = f.1

pub drop_front-NoEmpty : (m : Levels) → TailFull m → NoEmpty (drop_front m)
drop_front-NoEmpty [] f = tt
drop_front-NoEmpty ((p, l) ∷ m) f = elim (List-cases l.queue) [
  | inl e ↦ rw (drop_front-empty p l m e) f
  | inr (x, q, e) ↦ rw (drop_front-full p l m x q e) (cons-ne-nil l.queue q x e, f)
]
