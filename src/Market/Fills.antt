-- ===== src/Market/Fills.antt =====
-- The quantities and the book that `processMarketOrder` leaves.
use lobsimulater.Base.{ℕ, ◌+◌, ◌<◌, ◌^◌, ◌≡◌, refl, ap, inl, inr, arith, is_empty, min, List-cases}
use lobsimulater.Types.{Side, bid, ask, Quantity, Timestamp, opposite}
use lobsimulater.Levels.{Levels, side_volume}
use lobsimulater.Book.{OrderBook, levels_of, with_levels}
use lobsimulater.Book.Invariant.{Inv, NoEmpty, side-Inv, full-Inv}
use lobsimulater.Fill.{executed}
use lobsimulater.Fill.Keeps.{NoEmpty-TailFull}
use lobsimulater.Market.{Sweep, begin_sweep, end_sweep, market_sweep, process_market_order}
use lobsimulater.Market.Invariant.{SweepInv, market_sweep-SweepInv}

pub begin_sweep-SweepInv :
    (side : Side) (quantity : Quantity) (b : OrderBook)
    → Inv b
    → quantity < 2 ^ 32
    → SweepInv side
        (levels_of side b)
        quantity
        (side_volume (levels_of (opposite side) b))
        (begin_sweep side quantity b)
begin_sweep-SweepInv side quantity b v small = record {
  swept = side-Inv (opposite side) v;
  kept = side-Inv side v;
  tail = NoEmpty-TailFull (levels_of (opposite side) b) (full-Inv (opposite side) v);
  filled = omega arith;
  volume = omega arith;
  small = small;
}

end_sweep-Inv :
    (side : Side) (quantity rested : ℕ) (t : Sweep) (b : OrderBook)
    → Inv b
    → SweepInv side (levels_of side b) quantity rested t
    → NoEmpty t.levels
    → Inv (end_sweep side t b)
unfolding levels_of with_levels
end_sweep-Inv bid quantity rested t b v w f = record {
  bids = w.kept;
  asks = w.swept;
  full_bids = v.full_bids;
  full_asks = f;
}
end_sweep-Inv ask quantity rested t b v w f = record {
  bids = w.swept;
  asks = w.kept;
  full_bids = f;
  full_asks = v.full_asks;
}

pub end_sweep-levels :
    (side : Side) (t : Sweep) (b : OrderBook)
    → (levels_of (opposite side) (end_sweep side t b) ≡ t.levels)
      × (levels_of side (end_sweep side t b) ≡ levels_of side b)
unfolding levels_of with_levels
end_sweep-levels bid t b = (refl, refl)
end_sweep-levels ask t b = (refl, refl)

module _ (side : Side) (quantity : Quantity) (ts : Timestamp) (b : OrderBook) (v : Inv b)
    (small : quantity < 2 ^ 32) where
  -- On a book that satisfies the invariant, a market order for a quantity that fits 32 bits leaves a book
  -- that satisfies it: no empty level, no wrong counter, and no id in the index without its order.
  pub process_market_order-Inv : Inv (process_market_order side quantity ts b).0
  unfolding process_market_order
  process_market_order-Inv =
      let start = begin_sweep side quantity b in
      let (w, f, stop) =
        market_sweep-SweepInv side ts _ _ _ start (begin_sweep-SweepInv side quantity b v small)
          (full-Inv (opposite side) v) in
      end_sweep-Inv side quantity _ (market_sweep side ts start) b v w f

  -- On such a book, such a market order is filled up to its quantity or to all that the opposite side holds, whichever is
  -- less; the opposite side loses exactly what is executed, and the order's own side is untouched.
  pub process_market_order-executed :
      (executed (process_market_order side quantity ts b).1
        ≡ min quantity (side_volume (levels_of (opposite side) b)))
      × (side_volume (levels_of (opposite side) (process_market_order side quantity ts b).0)
            + executed (process_market_order side quantity ts b).1
          ≡ side_volume (levels_of (opposite side) b))
      × (levels_of side (process_market_order side quantity ts b).0 ≡ levels_of side b)
  unfolding process_market_order
  process_market_order-executed =
      let start = begin_sweep side quantity b in
      let t = market_sweep side ts start in
      let (w, f, stop) =
        market_sweep-SweepInv side ts _ _ _ start (begin_sweep-SweepInv side quantity b v small)
          (full-Inv (opposite side) v) in
      let (there, here) = end_sweep-levels side t b in
      (
        elim (List-cases t.levels) [
          | inl e ↦ omega (arith, w.filled, w.volume, ap side_volume e)
          | inr (x, m, e) ↦
              let dry : t.remaining ≡ 0 = ground (arith, ap (λ (z : Levels). is_empty z) e) in
              omega (arith, w.filled, w.volume, dry)
        ],
        rw there w.volume,
        here,
      )
