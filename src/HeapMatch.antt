-- ===== src/HeapMatch.antt =====
-- `OrderBook::processMarketOrder` and `matchOrders` (src/order_book.cpp) on a heap: the loops as runs of
-- rounds that can fault, without fuel.
pub mod Front
pub mod Drop
pub mod Empty
pub mod Placed
pub mod Taken
pub mod Market
pub mod Trade
pub mod Matching
use lobsimulater.Base.{
  ℕ, ◌≡◌, List, [], ◌∷◌, ◌++◌, Option, none, some, Bool, true, false, not, if◌then◌else◌, ◌==◌,
  ◌>>=◌, ltb, ltb_ℤ, ◌&&◌, is_empty, min, lookup, erase,
}
use lobsimulater.Base.Rounds.{Runs}
use lobsimulater.Types.{
  Side, bid, ask, Order, OrderId, Price, Quantity, Timestamp, Execution, sub32, opposite, is_filled,
}
use lobsimulater.Fill.{count_fill}
use lobsimulater.Market.{market_execution}
use lobsimulater.Crossing.{match_execution}
use lobsimulater.Heap
use lobsimulater.Heap.{Ptr, null, Cell, Heap, LevelCell, load, update}
use lobsimulater.HeapBook.{
  LinkedBook, LevelMap, LevelHeap, map_of, with_map, write_level, load_level, in_level, free,
}

-- `order->remaining_quantity -= q`.
abbrev pub fill_cell : Ptr → Quantity → Heap → Option Heap
fill_cell x q = update x λ c. record c {
  order = record c.order { remaining_quantity = sub32 c.order.remaining_quantity q };
}

-- `level->total_quantity -= q`.
unfoldable pub fill_level : Ptr → Quantity → LevelHeap → Option LevelHeap
fill_level t q ls = do
  l ← load_level t ls
  some (write_level ls t (some (record l { total_quantity = sub32 l.total_quantity q })))

-- `orders_.erase(id)`: the index frees the order that it owned.
unfoldable pub erase_order : OrderId → LinkedBook → LinkedBook
erase_order i b = elim (lookup i b.orders) [
  | none ↦ b
  | some x ↦ record b { orders = erase i b.orders; cells = free b.cells x }
]

-- `if (order->isFilled()) { level->removeOrder(order); orders_.erase(id); }`
unfoldable pub drop_filled : (t x : Ptr) → LinkedBook → Option LinkedBook
drop_filled t x b = do
  c ← load x b.cells
  let removed = (do b1 ← in_level t (Heap.remove_order x) b; some (erase_order c.order.id b1))
  if is_filled c.order then removed else some b

-- `level->empty()`, and the same of the best level of a side.
abbrev pub level_empty : Ptr → LinkedBook → Option Bool
level_empty t b = do l ← load_level t b.levels; some (l.head == null)

unfoldable pub front_empty : Side → LinkedBook → Option Bool
front_empty s b = elim (map_of s b) [ [] ↦ none | (p, t) ∷ m ↦ level_empty t b ]

-- `if (level->empty()) levels.erase(levels.begin());`
unfoldable pub drop_front : Side → LinkedBook → Option LinkedBook
drop_front s b = elim (map_of s b) [
  | [] ↦ none
  | (p, t) ∷ m ↦ do
    empty ← level_empty t b
    some (if empty then with_map s m (record b { levels = write_level b.levels t none }) else b)
]

-- The book and the variables of the loops of `processMarketOrder`.
pub record Sweep : Type 0 where
  pub book : LinkedBook
  pub remaining : Quantity
  pub executions : List Execution

-- One round of its inner loop.
unfoldable pub market_fill : Side → Timestamp → Sweep → Option Sweep
market_fill side ts s = elim (map_of (opposite side) s.book) [
  | [] ↦ none
  | (p, t) ∷ m ↦ do
    l ← load_level t s.book.levels
    c ← load l.head s.book.cells
    let fill = min s.remaining c.order.remaining_quantity
    let executions = s.executions ++ (market_execution side c.order.id p fill ts ∷ [])
    h ← fill_cell l.head fill s.book.cells
    ls ← fill_level t fill s.book.levels
    b ←
        drop_filled t l.head
          (record s.book { cells = h; levels = ls; metrics = count_fill fill s.book.metrics })
    some (record { book = b; remaining = sub32 s.remaining fill; executions = executions })
]

-- `remaining > 0 && !level->empty()`.
unfoldable pub level_rests : Side → Sweep → Option Bool
level_rests side s =
    let rests : Option Bool = (do empty ← front_empty (opposite side) s.book; some (not empty)) in
    if ltb 0 s.remaining then rests else some false

-- `remaining > 0 && !opposite_levels.empty()`.
abbrev pub side_rests : Side → Sweep → Option Bool
side_rests side s = some (ltb 0 s.remaining && not (is_empty (map_of (opposite side) s.book)))

abbrev pub LevelRuns : Side → Timestamp → Sweep → Sweep → Type 0
LevelRuns side ts = Runs (level_rests side) (λ s u. market_fill side ts s ≡ some u)

abbrev pub RoundRuns : Side → Timestamp → Sweep → Sweep → Type 0
RoundRuns side ts s u =
    (w : Sweep) × LevelRuns side ts s w
    × ((b : LinkedBook) × (drop_front (opposite side) w.book ≡ some b)
        × (u ≡ record w { book = b }))

abbrev pub SweepRuns : Side → Timestamp → Sweep → Sweep → Type 0
SweepRuns side ts = Runs (side_rests side) (RoundRuns side ts)

-- A run of `processMarketOrder` from a book to the book and the executions that it returns.
pub record ProcessMarketOrder (side : Side) (quantity : Quantity) (ts : Timestamp)
    (b b' : LinkedBook) (executions : List Execution) : Type 0 where
  pub last : Sweep
  pub runs : SweepRuns side ts (record { book = b; remaining = quantity; executions = [] }) last
  pub leaves : b' ≡ record last.book { cache_valid = false }
  pub returns : executions ≡ last.executions

-- The book and the executions of `matchOrders`.
pub record Crossing : Type 0 where
  pub book : LinkedBook
  pub executions : List Execution

-- One round of its inner loop, on the best levels at `t` and `u`.
unfoldable pub match_fill : (t u : Ptr) → Crossing → Option Crossing
match_fill t u s = do
  l ← load_level t s.book.levels
  k ← load_level u s.book.levels
  b ← load l.head s.book.cells
  a ← load k.head s.book.cells
  let fill = min b.order.remaining_quantity a.order.remaining_quantity
  let executions = s.executions ++ (match_execution b.order a.order fill ∷ [])
  h1 ← fill_cell l.head fill s.book.cells
  h2 ← fill_cell k.head fill h1
  ls1 ← fill_level t fill s.book.levels
  ls2 ← fill_level u fill ls1
  b1 ←
      drop_filled t l.head
        (record s.book { cells = h2; levels = ls2; metrics = count_fill fill s.book.metrics })
  b2 ← drop_filled u k.head b1
  some (record { book = b2; executions = executions })

-- The same of the two maps' best levels.
abbrev pub match_at : LevelMap → LevelMap → Crossing → Option Crossing
match_at ((p, t) ∷ m) ((q, u) ∷ n) s = match_fill t u s
match_at _ _ s = none

abbrev pub match_front : Crossing → Option Crossing
match_front s = match_at s.book.bid_levels s.book.ask_levels s

-- `!bid_level->empty() && !ask_level->empty()`.
unfoldable pub fronts_rest : Crossing → Option Bool
fronts_rest s = do
  no_bid ← front_empty bid s.book
  let asks : Option Bool = (do no_ask ← front_empty ask s.book; some (not no_ask))
  if not no_bid then asks else some false

-- Both maps hold a level, and the best bid is not below the best ask.
abbrev pub crosses_at : LevelMap → LevelMap → LevelHeap → Option Bool
crosses_at ((p, t) ∷ m) ((q, u) ∷ n) ls = do
  l ← load_level t ls
  k ← load_level u ls
  some (not (ltb_ℤ l.price k.price))
crosses_at _ _ ls = some false

abbrev pub crosses : Crossing → Option Bool
crosses s = crosses_at s.book.bid_levels s.book.ask_levels s.book.levels

abbrev pub LevelMatches : Crossing → Crossing → Type 0
LevelMatches = Runs fronts_rest (λ s u. match_front s ≡ some u)

abbrev pub RoundMatches : Crossing → Crossing → Type 0
RoundMatches s u =
    (w : Crossing) × LevelMatches s w
    × ((b1 b2 : LinkedBook) × (drop_front bid w.book ≡ some b1)
        × (drop_front ask b1 ≡ some b2)
        × (u ≡ record w { book = b2 }))

abbrev pub SweepMatches : Crossing → Crossing → Type 0
SweepMatches = Runs crosses RoundMatches

-- A run of `matchOrders` from a book to the book and the executions that it returns.
pub record MatchOrders (b b' : LinkedBook) (executions : List Execution) : Type 0 where
  pub last : Crossing
  pub runs : SweepMatches (record { book = b; executions = [] }) last
  pub leaves : b' ≡ record last.book {
    cache_valid = if is_empty last.executions then last.book.cache_valid else false;
  }
  pub returns : executions ≡ last.executions
