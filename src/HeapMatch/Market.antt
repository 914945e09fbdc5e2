-- ===== src/HeapMatch/Market.antt =====
-- `processMarketOrder` on a heap beside `process_market_order` of `Market`.
pub mod Rounds
use lobsimulater.Base.{
  ℕ, ◌<◌, ◌^◌, ◌≡◌, refl, sym, ◌∙◌, ap, subst, List, [], ◌∷◌, ◌++◌, Option, none, some, Bool, true,
  false, not, ◌&&◌, ◌>>=◌, ltb, min, length, is_empty, Bool-cases, List-cases, inl, inr, arith,
  if◌then◌else◌,
}
use lobsimulater.Base.Rounds.{Runs, Ends, Ends-Runs}
use lobsimulater.Types.{
  Side, bid, ask, Order, Price, Quantity, Timestamp, Execution, opposite, sub32,
}
use lobsimulater.Level.{PriceLevel}
use lobsimulater.Levels.{Levels, side_volume}
use lobsimulater.Levels.Order.{IsSorted}
use lobsimulater.Levels.Index.{SideInv}
use lobsimulater.Book.{OrderBook, Metrics, levels_of, with_levels}
use lobsimulater.Book.Invariant.{Inv, full-Inv}
use lobsimulater.Fill
use lobsimulater.Fill.{count_fill, front_rests}
use lobsimulater.Market
use lobsimulater.Market.{market_execution, begin_sweep, end_sweep, process_market_order}
use lobsimulater.Market.Invariant.{
  SweepInv, InLevel, InSide, fill-InLevel, drop_front-InSide, front_rests-cases, length-pos,
}
use lobsimulater.Market.Fills.{begin_sweep-SweepInv}
use lobsimulater.Market.Termination.{
  LevelEnds, RoundEnds, SweepEnds, process_market_order-SweepEnds,
}
use lobsimulater.Heap.{Ptr, null, Cell, cell, Heap, LevelCell, load}
use lobsimulater.Heap.Linked.{load-ok, first}
use lobsimulater.Heap.Steps.{bind_some}
use lobsimulater.HeapBook.{LinkedBook, LevelMap, LevelHeap, map_of, load_level}
use lobsimulater.HeapBook.Steps.{load_level-ok}
use lobsimulater.HeapBook.Find.{SamePrices}
use lobsimulater.HeapBook.Refines.{IsBook, touch-Places, touch-prices}
use lobsimulater.HeapMatch.{
  Sweep, fill_cell, fill_level, market_fill, level_rests, side_rests, front_empty, drop_filled,
  drop_front, LevelRuns, RoundRuns, SweepRuns, ProcessMarketOrder,
}
use lobsimulater.HeapMatch.Front.{filled_order, filled_level}
use lobsimulater.HeapMatch.Empty.{front_empty_lem, drop_front-IsBook}
use lobsimulater.HeapMatch.Placed.{placed, levels_of-placed, with_levels-placed, placed_self}
use lobsimulater.HeapMatch.Taken.{Taken, Along, take_placed, drop_placed}
use lobsimulater.HeapMatch.Market.Rounds.{SameSweep, uncached, outer_step, outer_test}

-- On a book on a heap that stands for a book of the invariant, and for a quantity below 2 ^ 32,
-- `processMarketOrder` has a run that ends and that faults nowhere; it returns the executions that the
-- other returns, and the two books agree again.
pub process_market_order-IsBook :
    (side : Side) (quantity : Quantity) (ts : Timestamp) (hb : LinkedBook) (b : OrderBook)
    → Inv b
    → quantity < 2 ^ 32
    → IsBook hb b
    → (hb' : LinkedBook) × ProcessMarketOrder side quantity ts hb hb'
        (process_market_order side quantity ts b).1
      × IsBook hb' (process_market_order side quantity ts b).0
process_market_order-IsBook side quantity ts hb b v small same =
    let far : Side = opposite side in
    let start = begin_sweep side quantity b in
    let rested = side_volume (levels_of far b) in
    let (t, ends, result) = process_market_order-SweepEnds side quantity ts b v small in
    let ((inv, full), s, runs, same') =
      Ends-Runs (side_rests side) (RoundRuns side ts)
        (λ x. ltb 0 x.remaining && not (is_empty x.levels)) (RoundEnds side ts)
        (InSide side ts (levels_of side b) quantity rested) (SameSweep side b)
        (outer_test side ts b (levels_of side b) quantity rested)
        (outer_step side ts b (levels_of side b) quantity rested)
        (record { book = hb; remaining = quantity; executions = [] }) start t
        (begin_sweep-SweepInv side quantity b v small, full-Inv far v)
        (record {
          books = subst (IsBook hb) (sym (placed_self far b)) same;
          remaining = refl;
          executions = refl;
        })
        ends in
    (
      record s.book { cache_valid = false },
      record {
        last = s;
        runs = runs;
        leaves = refl;
        returns = ap (λ r. r.1) result ∙ sym same'.executions;
      },
      subst (IsBook (record s.book { cache_valid = false })) (ap (λ r. r.0) (sym result))
          (uncached s.book (placed far t.levels t.orders t.metrics b) same'.books),
    )
