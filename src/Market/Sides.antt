-- ===== src/Market/Sides.antt =====
-- Which ids the executions of `processMarketOrder` carry.
use lobsimulater.Base.{
  ◌≡◌, refl, [], ◌∷◌, List, All, All-append, loop_keeps, List-cases, inl, inr, min, ◌&&◌, ltb,
}
use lobsimulater.Types.{Side, bid, ask, OrderId, Price, Quantity, Timestamp, Execution}
use lobsimulater.Levels.{Levels}
use lobsimulater.Book.{OrderBook}
use lobsimulater.Fill.{front_rests}
use lobsimulater.Market.{
  Sweep, market_fill, market_level, market_round, market_sweep, market_execution, begin_sweep,
  process_market_order,
}

-- The market order's own side of an execution.
abbrev pub own_id : Side → Execution → OrderId
own_id bid e = e.bid_id
own_id ask e = e.ask_id

execution-own_id :
    (s : Side) (i : OrderId) (p : Price) (q : Quantity) (ts : Timestamp)
    → own_id s (market_execution s i p q ts) ≡ 0
execution-own_id bid i p q ts = refl
execution-own_id ask i p q ts = refl

abbrev OwnZero : Side → List Execution → Type 0
OwnZero s = All λ e. own_id s e ≡ 0

market_fill-OwnZero :
    (s : Side) (ts : Timestamp) (m : Levels) (t : Sweep)
    → OwnZero s t.executions
    → OwnZero s (market_fill s ts m t).executions
unfolding market_fill
market_fill-OwnZero s ts [] t h = h
market_fill-OwnZero s ts ((p, l) ∷ m) t h = elim (List-cases l.queue) [
  | inl e ↦ rw (e, market_fill) h
  | inr (o, os, e) ↦
      rw (e, market_fill)
        (All-append (λ x. own_id s x ≡ 0) t.executions _ h
          (execution-own_id s o.id p (min t.remaining o.remaining_quantity) ts, tt))
]

market_sweep-OwnZero :
    (s : Side) (ts : Timestamp) (t : Sweep)
    → OwnZero s t.executions
    → OwnZero s (market_sweep s ts t).executions
unfolding market_sweep market_round market_level
market_sweep-OwnZero s ts t h =
    loop_keeps _ (market_round s ts) (λ u. OwnZero s u.executions)
      (λ u k.
        loop_keeps (λ w. ltb 0 w.remaining && front_rests w.levels) _ (λ w. OwnZero s w.executions)
          (λ w z. market_fill-OwnZero s ts w.levels w z) _ u k)
      _ t h

-- On every book, every execution of a market order carries the id 0 for the order's own side.
pub process_market_order-own_id :
    (s : Side) (quantity : Quantity) (ts : Timestamp) (b : OrderBook)
    → All (λ e. own_id s e ≡ 0) (process_market_order s quantity ts b).1
unfolding process_market_order
process_market_order-own_id s quantity ts b =
    market_sweep-OwnZero s ts (begin_sweep s quantity b) tt
