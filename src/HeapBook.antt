-- ===== src/HeapBook.antt =====
-- `OrderBook::addOrder`, `modifyOrder` and `cancelOrder` (src/order_book.cpp) once more, on a heap: the
-- index owns the cells of the orders, and the two maps own the levels. `none` is a fault: an access
-- through `nullptr`, or through a pointer to nothing, among them one to what has been freed. The
-- addresses that `make_unique` returns are arguments.
pub mod Find
pub mod Places
pub mod Owned
pub mod Refines
pub mod Start
pub mod Add
pub mod Pointed
pub mod Change
pub mod Cancel
pub mod Steps
use Prim.Native.String.{String}
use lobsimulater.Base.{
  ℕ, ◌+◌, List, [], ◌∷◌, Option, none, some, Bool, true, false, if◌then◌else◌, ltb, ◌==◌, ◌>>=◌,
  Dictionary, lookup, insert, erase, pos,
}
use lobsimulater.Types.{
  Side, bid, ask, Order, OrderId, Price, Quantity, same_side, same_price, before, add64,
}
use lobsimulater.Book.{Metrics, no_metrics}
use lobsimulater.Heap.{Ptr, null, cell, Heap, LevelCell, write, load, update}
use lobsimulater.Heap

-- A map from prices to the addresses of levels, in the order of its comparator.
abbrev pub LevelMap : Type 0
LevelMap = List (Price × Ptr)

unfoldable pub find_at : Price → LevelMap → Option Ptr
find_at p [] = none
find_at p ((q, t) ∷ m) = if same_price q p then some t else find_at p m

unfoldable pub put_at : Side → Price → Ptr → LevelMap → LevelMap
put_at s p t [] = (p, t) ∷ []
put_at s p t ((q, u) ∷ m) =
    if before s p q
    then (p, t) ∷ (q, u) ∷ m
    else if before s q p
    then (q, u) ∷ put_at s p t m
    else (q, t) ∷ m

unfoldable pub erase_at : Price → LevelMap → LevelMap
erase_at p [] = []
erase_at p ((q, t) ∷ m) = if same_price q p then erase_at p m else (q, t) ∷ erase_at p m

-- The levels by their addresses.
abbrev pub LevelHeap : Type 0
LevelHeap = Ptr → Option LevelCell

unfoldable pub write_level : LevelHeap → Ptr → Option LevelCell → LevelHeap
write_level ls t l a = if a == t then l else ls a

unfoldable pub load_level : Ptr → LevelHeap → Option LevelCell
load_level t ls = if t == null then none else ls t

-- `orders_.erase(it)` frees the order.
unfoldable pub free : Heap → Ptr → Heap
free h p a = if a == p then none else h a

pub record LinkedBook : Type 0 where
  pub symbol : String
  pub orders : Dictionary Ptr
  pub bid_levels : LevelMap
  pub ask_levels : LevelMap
  pub cached_best_bid : Price
  pub cached_best_ask : Price
  pub cache_valid : Bool
  pub metrics : Metrics
  pub cells : Heap
  pub levels : LevelHeap

-- `OrderBook(symbol)`, before anything is allocated.
abbrev pub new_book : String → LinkedBook
new_book name = record {
  symbol = name;
  orders = [];
  bid_levels = [];
  ask_levels = [];
  cached_best_bid = pos 0;
  cached_best_ask = pos 0;
  cache_valid = false;
  metrics = no_metrics;
  cells = λ a. none;
  levels = λ a. none;
}

abbrev pub map_of : Side → LinkedBook → LevelMap
map_of s b = if same_side s bid then b.bid_levels else b.ask_levels

abbrev pub with_map : Side → LevelMap → LinkedBook → LinkedBook
with_map s m b = record b {
  bid_levels = if same_side s bid then m else b.bid_levels;
  ask_levels = if same_side s bid then b.ask_levels else m;
}

-- A method of the level at an address.
unfoldable pub in_level :
    Ptr → (LevelCell → Heap → Option (LevelCell × Heap)) → LinkedBook → Option LinkedBook
in_level t method b = do
  l ← load_level t b.levels
  (l', h) ← method l b.cells
  some (record b { cells = h; levels = write_level b.levels t (some l') })

abbrev pub new_cell : Price → Side → LevelCell
new_cell p s = record {
  price = p;
  side = s;
  total_quantity = 0;
  order_count = 0;
  head = null;
  tail = null;
}

-- `getOrCreateLevel`; a new level stands at the address `t`.
unfoldable pub get_or_create_level : Ptr → Price → Side → LinkedBook → Ptr × LinkedBook
get_or_create_level t p s b = elim (find_at p (map_of s b)) [
  | some u ↦ (u, b)
  | none ↦ (
    t,
    with_map s (put_at s p t (map_of s b))
        (record b { levels = write_level b.levels t (some (new_cell p s)) }),
  )
]

-- `removeEmptyLevel`: the map frees the level that it owned.
unfoldable pub remove_empty_level : Price → Side → LinkedBook → LinkedBook
remove_empty_level p s b = elim (find_at p (map_of s b)) [
  | none ↦ b
  | some t ↦
      with_map s (erase_at p (map_of s b)) (record b { levels = write_level b.levels t none })
]

-- `addOrder`; the order stands at the address `p`, and a new level at `t`.
unfoldable pub add_order : (p t : Ptr) → Order → ℕ → LinkedBook → Option (LinkedBook × Bool)
add_order p t o elapsed b = elim (lookup o.id b.orders) [
  | some _ ↦ some (b, false)
  | none ↦ do
    let b1 = record b { cells = write b.cells p (cell o null null null) }
    c ← load p b1.cells
    let (level, b2) = get_or_create_level t c.order.price c.order.side b1
    b3 ← in_level level (Heap.add_order level p) b2
    d ← load p b3.cells
    some (
      record b3 {
        orders = insert d.order.id p b3.orders;
        metrics = record b3.metrics {
          orders_added = add64 b3.metrics.orders_added 1;
          total_latency = b3.metrics.total_latency + elapsed;
        };
        cache_valid = false;
      },
      true,
    )
]

-- A larger quantity takes the order out of its level and puts it back, last.
unfoldable pub requeue : Ptr → Ptr → Quantity → LinkedBook → Option LinkedBook
requeue p level new_quantity b = do
  b1 ← in_level level (Heap.remove_order p) b
  h ←
      update p
        (λ c. record c {
          order = record c.order { remaining_quantity = new_quantity; quantity = new_quantity };
        })
        b1.cells
  in_level level (Heap.add_order level p) (record b1 { cells = h })

unfoldable pub modify_order : OrderId → Quantity → ℕ → LinkedBook → Option (LinkedBook × Bool)
modify_order i new_quantity elapsed b = elim (lookup i b.orders) [
  | none ↦ some (b, false)
  | some p ↦ do
    c ← load p b.cells
    let raised = requeue p c.level new_quantity b
    let lowered = in_level c.level (Heap.modify_order p new_quantity) b
    b1 ← if ltb c.order.remaining_quantity new_quantity then raised else lowered
    some (
      record b1 {
        metrics = record b1.metrics {
          orders_modified = add64 b1.metrics.orders_modified 1;
          total_latency = b1.metrics.total_latency + elapsed;
        };
        cache_valid = false;
      },
      true,
    )
]

unfoldable pub cancel_order : OrderId → ℕ → LinkedBook → Option (LinkedBook × Bool)
cancel_order i elapsed b = elim (lookup i b.orders) [
  | none ↦ some (b, false)
  | some p ↦ do
    c ← load p b.cells
    b1 ← in_level c.level (Heap.remove_order p) b
    l ← load_level c.level b1.levels
    let b2 = if l.head == null then remove_empty_level l.price l.side b1 else b1
    some (
      record b2 {
        orders = erase i b2.orders;
        cells = free b2.cells p;
        metrics = record b2.metrics {
          orders_canceled = add64 b2.metrics.orders_canceled 1;
          total_latency = b2.metrics.total_latency + elapsed;
        };
        cache_valid = false;
      },
      true,
    )
]

-- `clear` frees what the index and the maps own.
abbrev pub free_orders : Dictionary Ptr → Heap → Heap
free_orders [] h = h
free_orders ((i, p) ∷ m) h = free_orders m (free h p)

abbrev pub free_levels : LevelMap → LevelHeap → LevelHeap
free_levels [] ls = ls
free_levels ((q, t) ∷ m) ls = free_levels m (write_level ls t none)

unfoldable pub clear : LinkedBook → LinkedBook
clear b = record b {
  orders = [];
  bid_levels = [];
  ask_levels = [];
  cells = free_orders b.orders b.cells;
  levels = free_levels b.ask_levels (free_levels b.bid_levels b.levels);
  cache_valid = false;
}
