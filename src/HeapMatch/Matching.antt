-- ===== src/HeapMatch/Matching.antt =====
-- `matchOrders` on a heap beside `match_orders` of `Crossing`.
pub mod Rounds
use lobsimulater.Base.{
  ℕ, ◌<◌, ◌≡◌, refl, sym, ◌∙◌, ap, subst, List, [], ◌∷◌, ◌++◌, Option, none, some, Bool, true,
  false, not, ◌&&◌, ◌>>=◌, ltb_ℤ, length, is_empty, Bool-cases, List-cases, inl, inr, arith,
  if◌then◌else◌,
}
use lobsimulater.Base.Rounds.{Ends-Runs}
use lobsimulater.Types.{bid, ask, Order, Price}
use lobsimulater.Level.{PriceLevel}
use lobsimulater.Levels.{Levels, side_volume}
use lobsimulater.Levels.Order.{IsSorted}
use lobsimulater.Book.{OrderBook, levels_of, with_levels}
use lobsimulater.Book.Invariant.{Inv}
use lobsimulater.Fill
use lobsimulater.Fill.{front_rests}
use lobsimulater.Market.Invariant.{front_rests-cases}
use lobsimulater.Crossing
use lobsimulater.Crossing.{begin_match, end_match, match_orders}
use lobsimulater.Crossing.Invariant.{CrossingInv}
use lobsimulater.Crossing.Loops.{
  InLevel, InSides, match_front-InLevel, match_front-match_fill, drop_fronts-InSides,
  crosses-length,
}
use lobsimulater.Crossing.Termination.{RoundEnds, MatchEnds, match_orders-MatchEnds}
use lobsimulater.Crossing.Result.{begin_match-Still}
use lobsimulater.Heap.{Ptr, LevelCell}
use lobsimulater.Heap.Steps.{bind_some}
use lobsimulater.HeapBook.{LinkedBook, LevelMap, LevelHeap, map_of, load_level}
use lobsimulater.HeapBook.Steps.{load_level-ok}
use lobsimulater.HeapBook.Find.{SamePrices}
use lobsimulater.HeapBook.Refines.{IsBook, touch-Places, touch-prices}
use lobsimulater.HeapMatch.{
  Crossing, match_front, front_empty, fronts_rest, crosses, crosses_at, drop_front, LevelMatches,
  RoundMatches, SweepMatches, MatchOrders,
}
use lobsimulater.HeapMatch.Front.{BestLevel, best}
use lobsimulater.HeapMatch.Empty.{front_empty_lem, drop_front-IsBook}
use lobsimulater.HeapMatch.Trade.{crossed, match_step}
use lobsimulater.HeapMatch.Matching.Rounds.{
  SameCrossing, recached, BetweenLevels, outer_test, outer_step,
}

-- On a book on a heap that stands for a book of the invariant, `matchOrders` has a run that ends and
-- that faults nowhere; it returns the executions that the other returns, and the two books agree again.
pub match_orders-IsBook :
    (hb : LinkedBook) (b : OrderBook)
    → Inv b
    → IsBook hb b
    → (hb' : LinkedBook) × MatchOrders hb hb' (match_orders b).1 × IsBook hb' (match_orders b).0
match_orders-IsBook hb b v same =
    let (c, ends, result) = match_orders-MatchEnds b v in
    let (inside, s, runs, same') =
      Ends-Runs crosses RoundMatches (λ z. Crossing.crosses z.bids z.asks) RoundEnds
        (BetweenLevels b v) (SameCrossing b) (outer_test b v) (outer_step b v)
        (record { book = hb; executions = [] }) (begin_match b) c
        (begin_match-Still b v v.full_bids v.full_asks, v.full_bids, v.full_asks)
        (record { books = same; executions = refl }) ends in
    let done : LinkedBook = record s.book {
      cache_valid = if is_empty s.executions then s.book.cache_valid else false;
    } in
    (
      done,
      record {
        last = s;
        runs = runs;
        leaves = refl;
        returns = ap (λ r. r.1) result ∙ sym same'.executions;
      },
      subst (IsBook done) (ap (λ r. r.0) (sym result)) (
          recached s.book (crossed c.bids c.asks c.orders c.metrics b) _ _ same'.books (
            ap (λ e. if is_empty e then s.book.cache_valid else false) same'.executions
            ∙ ap (λ z. if is_empty c.executions then z else false) same'.books.fields.3)),
    )
