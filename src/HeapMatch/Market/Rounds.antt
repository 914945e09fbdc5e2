-- ===== src/HeapMatch/Market/Rounds.antt =====
-- The rounds of the loops of `processMarketOrder` on a heap.
mod States
pub use States.*
use lobsimulater.Base.{
  ℕ, ◌<◌, ◌≡◌, refl, sym, ◌∙◌, ap, subst, List, [], ◌∷◌, ◌++◌, Option, some, Bool, true, false, not,
  ◌&&◌, ◌>>=◌, ltb, min, length, is_empty, Bool-cases, List-cases, inl, inr, arith, if◌then◌else◌,
}
use lobsimulater.Base.Rounds.{Ends-Runs}
use lobsimulater.Types.{Side, Order, Price, Quantity, Timestamp, opposite, sub32}
use lobsimulater.Level.{PriceLevel}
use lobsimulater.Levels.{Levels}
use lobsimulater.Levels.Order.{IsSorted}
use lobsimulater.Levels.Index.{SideInv}
use lobsimulater.Book.{OrderBook}
use lobsimulater.Fill
use lobsimulater.Fill.{count_fill, front_rests}
use lobsimulater.Market
use lobsimulater.Market.{market_execution, begin_sweep, end_sweep, process_market_order}
use lobsimulater.Market.Invariant.{
  InLevel, InSide, fill-InLevel, drop_front-InSide, front_rests-cases, length-pos,
}
use lobsimulater.Market.Termination.{RoundEnds}
use lobsimulater.Heap.{Ptr, null, Cell, cell, Heap, LevelCell, load}
use lobsimulater.Heap.Steps.{bind_some}
use lobsimulater.HeapBook.{LinkedBook, LevelMap, LevelHeap, map_of, load_level}
use lobsimulater.HeapBook.Find.{SamePrices}
use lobsimulater.HeapBook.Refines.{IsBook, touch-Places, touch-prices}
use lobsimulater.HeapMatch.{
  Sweep, fill_cell, fill_level, market_fill, level_rests, side_rests, front_empty, drop_filled,
  drop_front, RoundRuns,
}
use lobsimulater.HeapMatch.Empty.{front_empty_lem, drop_front-IsBook}
use lobsimulater.HeapMatch.Placed.{placed, levels_of-placed, with_levels-placed}
use lobsimulater.HeapMatch.Taken.{Taken, take_placed, drop_placed}

module _ (side : Side) (ts : Timestamp) (b : OrderBook) where
  -- The same round on the model, whose front order is known.
  fill_step :
      (hb : LinkedBook) (t : Market.Sweep) (p : Price) (l : PriceLevel) (m : Levels) (o : Order)
      (os : List Order)
      → l.queue ≡ o ∷ os
      → SideInv (opposite side) ((p, l) ∷ m) t.orders
      → IsBook hb (placed (opposite side) ((p, l) ∷ m) t.orders t.metrics b)
      → (u : Sweep) × (market_fill side ts (along hb t) ≡ some u)
        × SameSweep side b u (Market.market_fill side ts ((p, l) ∷ m) t)
  fill_step hb t p l m o os e v same =
      let far : Side = opposite side in
      let fill : Quantity = min t.remaining o.remaining_quantity in
      let w : Taken far p l m o os t.orders t.metrics b hb same.view fill (count_fill fill) =
        take_placed far p l m o os t.orders t.metrics b hb same.view fill (count_fill fill)
          (same, refl) e v.sorted in
      let hb1 : LinkedBook = record hb {
        cells = w.cells;
        levels = w.levels;
        metrics = count_fill fill hb.metrics;
      } in
      let (hb2, view2, dropped, (same2, seen2), maps, elsewhere) =
        drop_placed far p l l m o os t.orders (count_fill fill t.metrics) b hb1 w.view' fill
          w.address w.level.head w.rest w.books e v w.map w.moves.0 in
      (
        record {
          book = hb2;
          remaining = sub32 t.remaining fill;
          executions = t.executions ++ (market_execution side o.id p fill ts ∷ []);
        },
        run_fill side ts hb t p w.address w.rest w.level (cell o null w.after w.address) w.cells
            w.levels hb2 w.map w.level_loaded w.loaded w.cell_filled w.level_filled dropped,
        subst (SameSweep side b _) (sym (market_fill-front side ts t p l m o os e))
            (record { books = same2; remaining = refl; executions = refl }),
      )

  -- The inner loop's tests and rounds go along.
  inner_step :
      (other : Levels) (asked rested k : ℕ) (s : Sweep) (t u : Market.Sweep)
      → InLevel side ts other asked rested k t
      → SameSweep side b s t
      → (ltb 0 t.remaining && front_rests t.levels) ≡ true
      → u ≡ Market.market_fill side ts t.levels t
      → InLevel side ts other asked rested k u
        × (s' : Sweep) × (market_fill side ts s ≡ some s')
        × SameSweep side b s' u
  inner_step other asked rested k s t u (v, n) same go does =
      let (p, l, m, o, os, at, e) = front_rests-cases t.levels (ground arith) in
      let (s', done, same') =
        fill_step s.book t p l m o os e (subst (λ x. SideInv (opposite side) x t.orders) at v.swept)
          (subst (λ x. IsBook s.book (placed (opposite side) x t.orders t.metrics b)) at
            same.books) in
      (
        subst (InLevel side ts other asked rested k) (sym does)
            (fill-InLevel side ts other asked rested k t (v, n) go).0,
        s',
        ap (market_fill side ts) (sym (along-same side b s t same)) ∙ done,
        subst (SameSweep side b s') (ap (λ x. Market.market_fill side ts x t) (sym at) ∙ sym does)
            same',
      )

  inner_test :
      (other : Levels) (asked rested k : ℕ)
      → 0 < k
      → (s : Sweep) (t : Market.Sweep) → InLevel side ts other asked rested k t
      → SameSweep side b s t
      → level_rests side s ≡ some (ltb 0 t.remaining && front_rests t.levels)
  unfolding level_rests
  inner_test other asked rested k some_level s t (v, n) same = elim (List-cases t.levels) [
    | inl e ↦ absurd (omega (arith, some_level, n, ap (λ (x : Levels). length x) e))
    | inr ((p, l), m, e) ↦
        front_test s.remaining (front_empty (opposite side) s.book) (is_empty l.queue) (
          front_empty_lem s.book (placed (opposite side) t.levels t.orders t.metrics b) same.books
            (opposite side) p l m (levels_of-placed _ t.levels t.orders t.metrics b ∙ e))
        ∙ ap (λ r. some (ltb 0 r && not (is_empty l.queue))) same.remaining
        ∙ ap (λ x. some (ltb 0 t.remaining && front_rests x)) (sym e)
  ]

  -- The exit of the inner loop, with the level that it may have emptied.
  drop_step :
      (s : Sweep) (t : Market.Sweep) (p : Price) (l : PriceLevel) (m : Levels)
      → t.levels ≡ (p, l) ∷ m
      → IsSorted (opposite side) t.levels
      → SameSweep side b s t
      → (hb : LinkedBook) × (drop_front (opposite side) s.book ≡ some hb)
        × SameSweep side b (record s { book = hb }) (record t { levels = Fill.drop_front t.levels })
  drop_step s t p l m e sorted same =
      let far : Side = opposite side in
      let (hb, done, kept) =
        drop_front-IsBook s.book (placed far t.levels t.orders t.metrics b) same.books far p l m
          (levels_of-placed far t.levels t.orders t.metrics b ∙ e)
          (subst (IsSorted far) e sorted) in
      (
        hb,
        done,
        record {
          books =
              subst (IsBook hb)
                (with_levels-placed far t.levels _ t.orders t.metrics b
                  ∙ ap (λ x. placed far (Fill.drop_front x) t.orders t.metrics b) (sym e))
                kept;
          remaining = same.remaining;
          executions = same.executions;
        },
      )

  -- One round of the outer loop.
  pub outer_step :
      (other : Levels) (asked rested : ℕ) (s : Sweep) (t u : Market.Sweep)
      → InSide side ts other asked rested t
      → SameSweep side b s t
      → (ltb 0 t.remaining && not (is_empty t.levels)) ≡ true
      → RoundEnds side ts t u
      → InSide side ts other asked rested u
        × (s' : Sweep) × RoundRuns side ts s s'
        × SameSweep side b s' u
  outer_step other asked rested s t u (v, full) same go (w, ends, does) =
      let some_level : 0 < length t.levels = length-pos t.levels (ground arith) in
      let ((inv, n), s1, runs, same1) =
        Ends-Runs (level_rests side) (λ x y. market_fill side ts x ≡ some y)
          (λ x. ltb 0 x.remaining && front_rests x.levels)
          (λ x y. y ≡ Market.market_fill side ts x.levels x)
          (InLevel side ts other asked rested (length t.levels)) (SameSweep side b)
          (inner_test other asked rested (length t.levels) some_level)
          (inner_step other asked rested (length t.levels)) s t w (v, refl) same ends in
      let inside : InSide side ts other asked rested u =
        subst (InSide side ts other asked rested) (sym does)
          (drop_front-InSide side ts other asked rested w inv) in
      elim (List-cases w.levels) [
        | inl e ↦ absurd (omega (arith, some_level, n, ap (λ (x : Levels). length x) e))
        | inr ((p, l), m, e) ↦
            let (hb, dropped, same2) = drop_step s1 w p l m e inv.swept.sorted same1 in
            (
              inside,
              record s1 { book = hb },
              (s1, runs, (hb, dropped, refl)),
              subst (SameSweep side b (record s1 { book = hb })) (sym does) same2,
            )
      ]

  pub outer_test :
      (other : Levels) (asked rested : ℕ) (s : Sweep) (t : Market.Sweep)
      → InSide side ts other asked rested t
      → SameSweep side b s t
      → side_rests side s ≡ some (ltb 0 t.remaining && not (is_empty t.levels))
  outer_test other asked rested s t v same =
      ap (λ r. some (ltb 0 r && not (is_empty (map_of (opposite side) s.book)))) same.remaining
      ∙ ap (λ e. some (ltb 0 t.remaining && not e))
          (SamePrices-is_empty (map_of (opposite side) s.book) t.levels (
            subst (SamePrices (map_of (opposite side) s.book))
              (levels_of-placed (opposite side) t.levels t.orders t.metrics b)
              (same.books.prices (opposite side))))
