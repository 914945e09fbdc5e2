-- ===== src/Level.antt =====
-- `class PriceLevel` (include/lob/order_book.hpp, src/order_book.cpp): the orders at one price, in the
-- order of their arrival. The chain from `head_` to `tail_` is the list `queue`, and a pointer to one
-- of its orders is the order's id.
pub mod Quantities
use lobsimulater.Base.{
  ℕ, ◌+◌, ◌-◌, ◌%◌, ◌^◌, ◌≡◌, refl, List, [], ◌∷◌, ◌++◌, Option, none, some, Bool, length, sum_of,
  ◌==◌, if◌then◌else◌, ◌-ℤ◌, is_empty, max, ℤ,
}
use lobsimulater.Types.{Order, OrderId, Price, Quantity, Side, add32, sub32, to_int32, to_uint32}

pub record PriceLevel : Type 0 where
  pub price : Price
  pub side : Side
  pub total_quantity : Quantity
  pub order_count : ℕ
  pub queue : List Order

-- `PriceLevel(p, s)`.
abbrev pub new_level : Price → Side → PriceLevel
new_level p s = record { price = p; side = s; total_quantity = 0; order_count = 0; queue = [] }

-- `*ptr`, for a pointer to an order of the chain.
unfoldable pub find_order : OrderId → List Order → Option Order
find_order i [] = none
find_order i (o ∷ os) = if o.id == i then some o else find_order i os

unfoldable pub unlink : OrderId → List Order → List Order
unlink i [] = []
unlink i (o ∷ os) = if o.id == i then os else o ∷ unlink i os

-- A write through a pointer to an order of the chain.
unfoldable pub replace_order : OrderId → Order → List Order → List Order
replace_order i n [] = []
replace_order i n (o ∷ os) = if o.id == i then n ∷ os else o ∷ replace_order i n os

unfoldable pub add_order : PriceLevel → Order → PriceLevel
add_order l o = record l {
  queue = l.queue ++ (o ∷ []);
  total_quantity = add32 l.total_quantity o.remaining_quantity;
  order_count = add32 l.order_count 1;
}

unfoldable pub remove_order : PriceLevel → Order → PriceLevel
remove_order l o = record l {
  queue = unlink o.id l.queue;
  total_quantity = sub32 l.total_quantity o.remaining_quantity;
  order_count = sub32 l.order_count 1;
}

-- `static_cast<int32_t>(new_qty) - static_cast<int32_t>(order->remaining_quantity)`.
abbrev pub quantity_difference : Quantity → Quantity → ℤ
quantity_difference new_qty old = to_int32 new_qty -ℤ to_int32 old

unfoldable pub modify_order : PriceLevel → Order → Quantity → PriceLevel
modify_order l o new_qty = record l {
  queue =
      replace_order o.id
        (record o { remaining_quantity = new_qty; quantity = max o.quantity new_qty }) l.queue;
  total_quantity =
      add32 l.total_quantity (to_uint32 (quantity_difference new_qty o.remaining_quantity));
}

-- The quantity that rests at a level, and how often an id occurs in it.
abbrev pub volume : List Order → ℕ
volume = sum_of λ o. o.remaining_quantity

abbrev pub occurs : OrderId → List Order → ℕ
occurs i = sum_of λ o. if o.id == i then 1 else 0
