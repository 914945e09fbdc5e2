-- ===== src/Examples/Loops.antt =====
-- The loops of the book, without fuel, at small books.
use lobsimulater.Base.{◌≡◌, arith}
use lobsimulater.Types.{bid}
use lobsimulater.Market.{Sweep, begin_sweep, end_sweep, process_market_order}
use lobsimulater.Market.Termination.{SweepEnds, process_market_order-SweepEnds}
use lobsimulater.Crossing.{Crossing, begin_match, end_match, match_orders}
use lobsimulater.Crossing.Termination.{MatchEnds, match_orders-MatchEnds}
use lobsimulater.Examples.{two_asks, crossed, two_asks-Inv, crossed-Inv}

process_market_order-SweepEnds_example :
    (t : Sweep) × SweepEnds bid 4 (begin_sweep bid 8 two_asks) t
    × (process_market_order bid 8 4 two_asks ≡ (end_sweep bid t two_asks, t.executions))
process_market_order-SweepEnds_example =
    process_market_order-SweepEnds bid 8 4 two_asks two_asks-Inv (omega arith)

match_orders-MatchEnds_example :
    (c : Crossing) × MatchEnds (begin_match crossed) c
    × (match_orders crossed ≡ (end_match c crossed, c.executions))
match_orders-MatchEnds_example = match_orders-MatchEnds crossed crossed-Inv
