-- ===== src/Fill.antt =====
-- What `processMarketOrder` and `matchOrders` (src/order_book.cpp) share: a fill of the front order of
-- a side's best level, and the removal of that level once it is empty.
pub mod Keeps
use lobsimulater.Base.{
  ℕ, ◌-◌, ◌+◌, List, [], ◌∷◌, Bool, true, false, not, if◌then◌else◌, ◌==◌, is_empty, length, erase,
  sum_of,
}
use lobsimulater.Types.{Order, Quantity, Execution, add64, sub32, is_filled}
use lobsimulater.Level
use lobsimulater.Level.{PriceLevel}
use lobsimulater.Levels.{Levels}
use lobsimulater.Levels.Index.{Orders}
use lobsimulater.Book.{Metrics}

-- The level after a fill of its front order: a filled order is removed.
abbrev pub fill_front : PriceLevel → Order → List Order → Quantity → PriceLevel
fill_front l o os fill =
    let o' : Order = record o { remaining_quantity = sub32 o.remaining_quantity fill } in
    let l' : PriceLevel = record l {
      queue = o' ∷ os;
      total_quantity = sub32 l.total_quantity fill;
    } in
    if is_filled o' then Level.remove_order l' o' else l'

-- A filled order leaves the index.
abbrev pub drop_filled : Order → Quantity → Orders → Orders
drop_filled o fill orders =
    if sub32 o.remaining_quantity fill == 0 then erase o.id orders else orders

abbrev pub count_fill : Quantity → Metrics → Metrics
count_fill fill m = record m {
  total_volume = add64 m.total_volume fill;
  orders_matched = add64 m.orders_matched 1;
}

-- `!level->empty()`, of the best level.
abbrev pub front_rests : Levels → Bool
front_rests [] = false
front_rests ((p, l) ∷ m) = not (is_empty l.queue)

abbrev pub front_length : Levels → ℕ
front_length [] = 0
front_length ((p, l) ∷ m) = length l.queue

-- `if (level->empty()) opposite_levels.erase(opposite_levels.begin());`
abbrev pub drop_front : Levels → Levels
drop_front [] = []
drop_front ((p, l) ∷ m) = if is_empty l.queue then m else (p, l) ∷ m

-- The quantity of a list of executions.
abbrev pub executed : List Execution → ℕ
executed = sum_of λ e. e.quantity
