-- ===== src/Heap.antt =====
-- `class PriceLevel` (src/order_book.cpp) once more, on a heap: the orders of a level are cells that their
-- `prev` and `next` pointers link. `none` is a fault: the read or write through `nullptr`, or through a
-- pointer to no order.
pub mod Linked
pub mod Relink
pub mod Steps
pub mod Refines
use lobsimulater.Base.{
  ℕ, ◌+◌, List, [], ◌∷◌, Option, none, some, Bool, false, if◌then◌else◌, ◌==◌, ◌>>=◌, ◌||◌, max,
}
use lobsimulater.Types.{Order, Price, Side, Quantity, add32, sub32, to_uint32}
use lobsimulater.Level.{quantity_difference}

abbrev pub Ptr : Type 0
Ptr = ℕ

abbrev pub null : Ptr
null = 0

-- A `struct Order` with its three pointers.
pub record Cell : Type 0 where
  pub order : Order
  pub prev : Ptr
  pub next : Ptr
  pub level : Ptr

abbrev pub cell : Order → Ptr → Ptr → Ptr → Cell
cell o before after this = record { order = o; prev = before; next = after; level = this }

abbrev pub Heap : Type 0
Heap = Ptr → Option Cell

-- The fields of a `PriceLevel`, with its pointers to the first and to the last order.
pub record LevelCell : Type 0 where
  pub price : Price
  pub side : Side
  pub total_quantity : Quantity
  pub order_count : ℕ
  pub head : Ptr
  pub tail : Ptr

unfoldable pub write : Heap → Ptr → Cell → Heap
write h p c a = if a == p then some c else h a

-- `*p`.
unfoldable pub load : Ptr → Heap → Option Cell
load p h = if p == null then none else h p

abbrev pub update : Ptr → (Cell → Cell) → Heap → Option Heap
update p f h = do c ← load p h; some (write h p (f c))

-- `if (tail_) { tail_->next = order; } else { head_ = order; }`
unfoldable pub link_back : Ptr → LevelCell → Heap → Option (LevelCell × Heap)
link_back p l h =
    let linked : Option (LevelCell × Heap) = (do
      h' ← update l.tail (λ c. record c { next = p }) h
      some (l, h')) in
    if l.tail == null then some (record l { head = p }, h) else linked

-- `PriceLevel::addOrder`; `this` is the address of the level.
unfoldable pub add_order : (this p : Ptr) → LevelCell → Heap → Option (LevelCell × Heap)
add_order this p l h = do
  h1 ← update p (λ c. record c { level = this; next = null; prev = l.tail }) h
  (l1, h2) ← link_back p l h1
  c ← load p h2
  some (
    record l1 {
      tail = p;
      total_quantity = add32 l1.total_quantity c.order.remaining_quantity;
      order_count = add32 l1.order_count 1;
    },
    h2,
  )

-- `if (order->prev) { order->prev->next = order->next; } else { head_ = order->next; }`
unfoldable pub unlink_before : Ptr → LevelCell → Heap → Option (LevelCell × Heap)
unlink_before p l h = do
  c ← load p h
  let linked : Option (LevelCell × Heap) = (do
    h' ← update c.prev (λ d. record d { next = c.next }) h
    some (l, h'))
  if c.prev == null then some (record l { head = c.next }, h) else linked

-- `if (order->next) { order->next->prev = order->prev; } else { tail_ = order->prev; }`
unfoldable pub unlink_after : Ptr → LevelCell → Heap → Option (LevelCell × Heap)
unlink_after p l h = do
  c ← load p h
  let linked : Option (LevelCell × Heap) = (do
    h' ← update c.next (λ d. record d { prev = c.prev }) h
    some (l, h'))
  if c.next == null then some (record l { tail = c.prev }, h) else linked

-- `PriceLevel::removeOrder`.
unfoldable pub remove_order : Ptr → LevelCell → Heap → Option (LevelCell × Heap)
remove_order p l h = do
  (l1, h1) ← unlink_before p l h
  (l2, h2) ← unlink_after p l1 h1
  c ← load p h2
  some (
    record l2 {
      total_quantity = sub32 l2.total_quantity c.order.remaining_quantity;
      order_count = sub32 l2.order_count 1;
    },
    write h2 p (cell c.order null null null),
  )

-- `PriceLevel::modifyOrder`.
unfoldable pub modify_order : Ptr → Quantity → LevelCell → Heap → Option (LevelCell × Heap)
modify_order p new_qty l h = do
  c ← load p h
  let o : Order = record c.order {
    remaining_quantity = new_qty;
    quantity = max c.order.quantity new_qty;
  }
  some (
    record l {
      total_quantity =
          add32 l.total_quantity
            (to_uint32 (quantity_difference new_qty c.order.remaining_quantity));
    },
    write h p (record c { order = o }),
  )
