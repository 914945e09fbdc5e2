-- ===== src/HeapMatch/Market/Rounds/States.antt =====
-- The states of the loops of `processMarketOrder` in the two books, and their tests.
use lobsimulater.Base.{
  ℕ, ◌≡◌, refl, sym, ◌∙◌, ap, List, [], ◌∷◌, ◌++◌, Option, some, Bool, false, not, ◌&&◌, ◌>>=◌, ltb,
  min, is_empty, Bool-cases, inl, inr, if◌then◌else◌,
}
use lobsimulater.Types.{Side, Order, Price, Timestamp, opposite, sub32}
use lobsimulater.Level.{PriceLevel}
use lobsimulater.Levels.{Levels}
use lobsimulater.Book.{OrderBook}
use lobsimulater.Fill
use lobsimulater.Fill.{count_fill, front_rests}
use lobsimulater.Market
use lobsimulater.Market.{market_execution, begin_sweep, end_sweep, process_market_order}
use lobsimulater.Heap.{Ptr, Cell, Heap, LevelCell, load}
use lobsimulater.Heap.Steps.{bind_some}
use lobsimulater.HeapBook.{LinkedBook, LevelMap, LevelHeap, map_of, load_level}
use lobsimulater.HeapBook.Find.{SamePrices}
use lobsimulater.HeapBook.Refines.{IsBook, touch-Places, touch-prices}
use lobsimulater.HeapMatch.{Sweep, fill_cell, fill_level, market_fill, drop_filled}
use lobsimulater.HeapMatch.Placed.{placed}

-- The states of the two loops.
pub record SameSweep (side : Side) (b : OrderBook) (s : Sweep) (t : Market.Sweep) : Type 0 where
  pub books : IsBook s.book (placed (opposite side) t.levels t.orders t.metrics b)
  pub remaining : s.remaining ≡ t.remaining
  pub executions : s.executions ≡ t.executions

abbrev pub along : LinkedBook → Market.Sweep → Sweep
along hb t = record { book = hb; remaining = t.remaining; executions = t.executions }

pub along-same :
    (side : Side) (b : OrderBook) (s : Sweep) (t : Market.Sweep)
    → SameSweep side b s t
    → along s.book t ≡ s
along-same side b s t same =
    ap (λ r. record { book = s.book; remaining = r; executions = t.executions })
      (sym same.remaining)
    ∙ ap (λ e. record { book = s.book; remaining = s.remaining; executions = e })
        (sym same.executions)

-- One round of the inner loop, from what it reads and writes.
pub run_fill :
    (side : Side) (ts : Timestamp) (hb : LinkedBook) (t : Market.Sweep) (p : Price) (a : Ptr)
    (rest : LevelMap) (k : LevelCell) (c : Cell) (h : Heap) (ls : LevelHeap) (hb' : LinkedBook)
    → let fill = min t.remaining c.order.remaining_quantity in
      map_of (opposite side) hb ≡ (p, a) ∷ rest
      → load_level a hb.levels ≡ some k
      → load k.head hb.cells ≡ some c
      → fill_cell k.head fill hb.cells ≡ some h
      → fill_level a fill hb.levels ≡ some ls
      → drop_filled a k.head
          (record hb { cells = h; levels = ls; metrics = count_fill fill hb.metrics })
        ≡ some hb'
      → market_fill side ts (along hb t)
        ≡ some (record {
          book = hb';
          remaining = sub32 t.remaining fill;
          executions = t.executions ++ (market_execution side c.order.id p fill ts ∷ []);
        })
unfolding market_fill
run_fill side ts hb t p a rest k c h ls hb' map level loaded filled leveled dropped =
    rw (map, market_fill)
      (bind_some _ _ level (
        bind_some _ _ loaded
          (bind_some _ _ filled (bind_some _ _ leveled (bind_some _ _ dropped refl)))))

pub market_fill-front :
    (side : Side) (ts : Timestamp) (t : Market.Sweep) (p : Price) (l : PriceLevel) (m : Levels)
    (o : Order) (os : List Order)
    → l.queue ≡ o ∷ os
    → let fill = min t.remaining o.remaining_quantity in
      Market.market_fill side ts ((p, l) ∷ m) t ≡ record {
        levels = (p, Fill.fill_front l o os fill) ∷ m;
        remaining = sub32 t.remaining fill;
        orders = Fill.drop_filled o fill t.orders;
        executions = t.executions ++ (market_execution side o.id p fill ts ∷ []);
        metrics = count_fill fill t.metrics;
      }
unfolding Market.market_fill
market_fill-front side ts t p l m o os e = rw (e, Market.market_fill) refl

pub front_test :
    (n : ℕ) (m : Option Bool) (c : Bool)
    → m ≡ some c
    → (if ltb 0 n then (m >>= λ e. some (not e)) else some false) ≡ some (ltb 0 n && not c)
front_test n m c e = elim (Bool-cases (ltb 0 n)) [
  | inl go ↦ rw go (ap (λ x. x >>= λ d. some (not d)) e)
  | inr stop ↦ rw stop refl
]

pub SamePrices-is_empty : (m : LevelMap) (n : Levels) → SamePrices m n → is_empty m ≡ is_empty n
SamePrices-is_empty [] [] h = refl
SamePrices-is_empty [] (x ∷ n) h = absurd h
SamePrices-is_empty (x ∷ m) [] h = absurd h
SamePrices-is_empty (x ∷ m) (y ∷ n) h = refl

-- Both books invalidate their caches.
pub uncached :
    (hb : LinkedBook) (b : OrderBook)
    → IsBook hb b
    → IsBook (record hb { cache_valid = false }) (record b { cache_valid = false })
uncached hb b same = record {
  view = same.view;
  places = touch-Places (record hb { cache_valid = false }) b same.view _ _ _ same.places;
  index = same.index;
  prices = touch-prices hb b _ _ _ same.prices;
  fields = (same.fields.0, same.fields.1, same.fields.2, refl, same.fields.4);
}
