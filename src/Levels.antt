-- ===== src/Levels.antt =====
-- `bid_levels_` and `ask_levels_` (include/lob/order_book.hpp): a `std::map` from a price to its level,
-- as a list of entries in the order of the map's comparator. `same_price` is the map's equivalence of
-- keys, and the first entry is `*begin()`.
pub mod Order
pub mod Index
use lobsimulater.Base.{
  ℕ, ◌+◌, ◌≡◌, List, [], ◌∷◌, Option, none, some, Bool, sum_of, if◌then◌else◌, ◌&&◌,
}
use lobsimulater.Types.{Side, Price, OrderId, same_side, same_price, before}
use lobsimulater.Types
use lobsimulater.Level.{PriceLevel, volume, occurs}

abbrev pub Levels : Type 0
Levels = List (Price × PriceLevel)

-- `levels.find(price)`.
unfoldable pub find_level : Price → Levels → Option PriceLevel
find_level p [] = none
find_level p ((q, l) ∷ m) = if same_price q p then some l else find_level p m

-- `levels[price] = level`, and a write through a pointer to a level of the map.
unfoldable pub put_level : Side → Price → PriceLevel → Levels → Levels
put_level s p l [] = (p, l) ∷ []
put_level s p l ((q, k) ∷ m) =
    if before s p q
    then (p, l) ∷ (q, k) ∷ m
    else if before s q p
    then (q, k) ∷ put_level s p l m
    else (q, l) ∷ m

-- `levels.erase(price)`.
unfoldable pub erase_level : Price → Levels → Levels
erase_level p [] = []
erase_level p ((q, l) ∷ m) = if same_price q p then erase_level p m else (q, l) ∷ erase_level p m

-- The orders that rest at a price, first in first.
unfoldable pub queue_at : Price → Levels → List Types.Order
queue_at p [] = []
queue_at p ((q, l) ∷ m) = if same_price q p then l.queue else queue_at p m

-- All that rests on a side.
abbrev pub side_volume : Levels → ℕ
side_volume = sum_of λ e. volume (e.1).queue

-- Where `order->level` points: the level of a side at a price.
pub record LevelRef : Type 0 where
  pub side : Side
  pub price : Price

-- Whether the index sends an order to the level of a side at a price, as a number.
unfoldable pub hits : Side → Price → Option LevelRef → ℕ
hits s p none = 0
hits s p (some r) = if same_side r.side s && same_price r.price p then 1 else 0
