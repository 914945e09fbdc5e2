-- ===== src/Market/Termination.antt =====
-- The loops of `processMarketOrder` as loops without fuel.
use lobsimulater.Base.{ℕ, ◌<◌, ◌^◌, ◌≡◌, refl, ◌&&◌, not, ltb, length, ◌+◌, is_empty}
use lobsimulater.Base.Rounds.{Ends, loop-Ends}
use lobsimulater.Types.{Side, Quantity, Timestamp, opposite}
use lobsimulater.Levels.{Levels, side_volume}
use lobsimulater.Book.{OrderBook, levels_of}
use lobsimulater.Book.Invariant.{Inv, full-Inv}
use lobsimulater.Fill.{front_rests, front_length, drop_front}
use lobsimulater.Market.{
  Sweep, market_fill, market_level, market_round, market_sweep, begin_sweep, end_sweep,
  process_market_order,
}
use lobsimulater.Market.Invariant.{
  InLevel, InSide, fill-InLevel, market_level-InLevel, market_round-InSide, market_sweep-SweepInv,
}
use lobsimulater.Market.Fills.{begin_sweep-SweepInv}

-- The inner loop ends, one round of the outer loop ends, and the outer loop ends.
abbrev pub LevelEnds : Side → Timestamp → Sweep → Sweep → Type 0
LevelEnds side ts =
    Ends (λ t. ltb 0 t.remaining && front_rests t.levels)
      (λ t u. u ≡ market_fill side ts t.levels t)

abbrev pub RoundEnds : Side → Timestamp → Sweep → Sweep → Type 0
RoundEnds side ts t u =
    (w : Sweep) × LevelEnds side ts t w × (u ≡ record w { levels = drop_front w.levels })

abbrev pub SweepEnds : Side → Timestamp → Sweep → Sweep → Type 0
SweepEnds side ts = Ends (λ t. ltb 0 t.remaining && not (is_empty t.levels)) (RoundEnds side ts)

market_round-RoundEnds :
    (side : Side) (ts : Timestamp) (other : Levels) (asked rested : ℕ) (t : Sweep)
    → InSide side ts other asked rested t
    → RoundEnds side ts t (market_round side ts t)
unfolding market_round market_level
market_round-RoundEnds side ts other asked rested t (v, full) =
    let (w, stop) = market_level-InLevel side ts other asked rested (length t.levels) t (v, refl) in
    (
      market_level side ts t,
      loop-Ends (λ u. ltb 0 u.remaining && front_rests u.levels)
          (λ u. market_fill side ts u.levels u) (λ u u'. u' ≡ market_fill side ts u.levels u)
          (InLevel side ts other asked rested (length t.levels))
          (λ u h go. (fill-InLevel side ts other asked rested (length t.levels) u h go).0)
          (λ u h go. refl) (front_length t.levels + 2) t (v, refl) stop,
      refl,
    )

-- On a book that satisfies the invariant, and for a quantity below 2 ^ 32, the two nested loops of
-- `processMarketOrder`, run without fuel, end after finitely many rounds, and what they leave is what
-- the function returns.
pub process_market_order-SweepEnds :
    (side : Side) (quantity : Quantity) (ts : Timestamp) (b : OrderBook)
    → Inv b
    → quantity < 2 ^ 32
    → (t : Sweep) × SweepEnds side ts (begin_sweep side quantity b) t
      × (process_market_order side quantity ts b ≡ (end_sweep side t b, t.executions))
unfolding process_market_order market_sweep
process_market_order-SweepEnds side quantity ts b v small =
    let start = begin_sweep side quantity b in
    let other = levels_of side b in
    let rested = side_volume (levels_of (opposite side) b) in
    let w = begin_sweep-SweepInv side quantity b v small in
    let full = full-Inv (opposite side) v in
    let (done, full', stop) = market_sweep-SweepInv side ts other quantity rested start w full in
    (
      market_sweep side ts start,
      loop-Ends (λ t. ltb 0 t.remaining && not (is_empty t.levels)) (market_round side ts)
          (RoundEnds side ts) (InSide side ts other quantity rested)
          (λ t h go. (market_round-InSide side ts other quantity rested t h go).0)
          (λ t h go. market_round-RoundEnds side ts other quantity rested t h)
          (length start.levels + 2) start (w, full) stop,
      refl,
    )
