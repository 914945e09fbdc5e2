-- ===== src/Market/Priority.antt =====
-- The order of trading in `processMarketOrder`, against a walk along the orders of the opposite side.
mod Walk
unfoldable pub use Walk.*
use lobsimulater.Base.{
  ℕ, ◌+◌, ◌-◌, ◌<◌, ◌^◌, ◌≡◌, refl, sym, ◌∙◌, ap, subst, [], ◌∷◌, ◌++◌, List, true, false,
  if◌then◌else◌, Bool-cases, ◌==◌, leb, List-cases, inl, inr, arith, ◌&&◌, is_empty, not, ltb, min,
  length, loop_keeps_on, map,
}
use lobsimulater.Types.{Side, Order, Price, Quantity, Timestamp, Execution, opposite, sub32}
use lobsimulater.Level.{PriceLevel}
use lobsimulater.Levels.{Levels}
use lobsimulater.Levels.Index.{SideInv}
use lobsimulater.Book.{OrderBook, levels_of}
use lobsimulater.Book.Invariant.{Inv, full-Inv}
use lobsimulater.Fill.{fill_front, drop_front, front_rests, front_length}
use lobsimulater.Fill.Keeps.{front_small, fill_front-queue, drop_front-empty, drop_front-full}
use lobsimulater.Market.{
  Sweep, market_fill, market_level, market_round, market_sweep, market_execution, begin_sweep,
  process_market_order,
}
use lobsimulater.Market.Invariant.{
  InLevel, fill-InLevel, InSide, market_round-InSide, market_sweep-SweepInv, front_rests-cases,
}
use lobsimulater.Market.Fills.{begin_sweep-SweepInv, end_sweep-levels}

module _ (side : Side) (ts : Timestamp) (fills : List Execution) (left : List (Price × Order)) where
  -- What the rounds keep: the executions so far and those of the walk along what is left.
  record Priority (t : Sweep) : Type 0 where
    fills_here : t.executions ++ fills_of side ts t.remaining (priced t.levels) ≡ fills
    left_here : rest_of t.remaining (priced t.levels) ≡ left

  fill-Priority :
      (t : Sweep) (p : Price) (l : PriceLevel) (m : Levels) (o : Order) (os : List Order)
      → t.levels ≡ (p, l) ∷ m
      → l.queue ≡ o ∷ os
      → 0 < t.remaining
      → t.remaining < 2 ^ 32
      → o.remaining_quantity < 2 ^ 32
      → Priority t
      → Priority (market_fill side ts ((p, l) ∷ m) t)
  unfolding market_fill fills_of rest_of
  fill-Priority t p l m o os at e more small fits v =
      let front : priced t.levels ≡ (p, o) ∷ (at_price p os ++ priced m) =
        ap priced at ∙ ap (λ q. at_price p q ++ priced m) e in
      rw (e, market_fill)
        (record {
          fills_here =
              append_snoc t.executions _ _
              ∙ ap (λ z. t.executions ++ z)
                  (sym (fills_of-step p l o os (priced m) t.remaining more small fits side ts)
                    ∙ ap (fills_of side ts t.remaining) (sym front))
              ∙ v.fills_here;
          left_here =
              sym (rest_of-step p l o os (priced m) t.remaining more small fits)
              ∙ ap (rest_of t.remaining) (sym front)
              ∙ v.left_here;
        })

  drop-Priority : (t : Sweep) → Priority t → Priority (record t { levels = drop_front t.levels })
  drop-Priority t v = record {
    fills_here =
        ap (λ x. t.executions ++ fills_of side ts t.remaining x) (priced-drop_front t.levels)
        ∙ v.fills_here;
    left_here = ap (rest_of t.remaining) (priced-drop_front t.levels) ∙ v.left_here;
  }

  module _ (other : Levels) (asked rested : ℕ) where
    round-Priority :
        (k : ℕ) (t : Sweep)
        → InLevel side ts other asked rested k t × Priority t
        → (ltb 0 t.remaining && front_rests t.levels) ≡ true
        → InLevel side ts other asked rested k (market_fill side ts t.levels t)
          × Priority (market_fill side ts t.levels t)
    round-Priority k t (h, v) go =
        let (p, l, m, o, os, at, e) = front_rests-cases t.levels (ground arith) in
        let w = subst (λ x. SideInv (opposite side) x t.orders) at (h.0).swept in
        (
          (fill-InLevel side ts other asked rested k t h go).0,
          subst (λ x. Priority (market_fill side ts x t)) (sym at)
              (fill-Priority t p l m o os at e (ground arith) (h.0).small
                (front_small (opposite side) p l o os 0 e (omega arith) (w.levels).0) v),
        )

    market_level-Priority :
        (k : ℕ) (t : Sweep)
        → InLevel side ts other asked rested k t
        → Priority t
        → Priority (market_level side ts t)
    unfolding market_level
    market_level-Priority k t h v =
        (loop_keeps_on (λ u. ltb 0 u.remaining && front_rests u.levels)
          (λ u. market_fill side ts u.levels u)
          (λ u. InLevel side ts other asked rested k u × Priority u) (round-Priority k)
          (front_length t.levels + 2) t (h, v)).1

    market_sweep-Priority :
        (t : Sweep)
        → InSide side ts other asked rested t
        → Priority t
        → Priority (market_sweep side ts t)
    unfolding market_sweep market_round
    market_sweep-Priority t h v =
        (loop_keeps_on (λ u. ltb 0 u.remaining && not (is_empty u.levels)) (market_round side ts)
          (λ u. InSide side ts other asked rested u × Priority u)
          (λ u (i, w) go. (
            (market_round-InSide side ts other asked rested u i go).0,
            drop-Priority (market_level side ts u)
                (market_level-Priority (length u.levels) u (i.0, refl) w),
          ))
          (length t.levels + 2) t (h, v)).1

-- Where the outer loop stops, the walk is over.
walk_over :
    (side : Side) (ts : Timestamp) (t : Sweep)
    → (ltb 0 t.remaining && not (is_empty t.levels)) ≡ false
    → (fills_of side ts t.remaining (priced t.levels) ≡ [])
      × (rest_of t.remaining (priced t.levels) ≡ priced t.levels)
unfolding fills_of rest_of
walk_over side ts t stop = elim (List-cases t.levels) [
  | inl e ↦ rw e (refl, refl)
  | inr (x, m, e) ↦
      let dry : t.remaining ≡ 0 = ground (arith, ap (λ (z : Levels). is_empty z) e) in
      rw dry (fills_of_zero side ts (priced t.levels), rest_of_zero (priced t.levels))
]

append-nil : (es : List Execution) → es ++ [] ≡ es
append-nil [] = refl
append-nil (x ∷ es) = ap (λ z. x ∷ z) (append-nil es)

-- A market order on a book that satisfies the invariant executes along the orders of the opposite
-- side, the best price first and at each price the oldest first, each for as much as both sides still
-- have, at the price and with the id of the resting order; the orders that are left on that side are
-- those not reached, in the same order, the first of them less what was taken from it.
pub process_market_order-fills_of :
    (side : Side) (quantity : Quantity) (ts : Timestamp) (b : OrderBook)
    → Inv b
    → quantity < 2 ^ 32
    → let resting = priced (levels_of (opposite side) b) in
      ((process_market_order side quantity ts b).1 ≡ fills_of side ts quantity resting)
      × (priced (levels_of (opposite side) (process_market_order side quantity ts b).0)
          ≡ rest_of quantity resting)
unfolding process_market_order
process_market_order-fills_of side quantity ts b v small =
    let resting = priced (levels_of (opposite side) b) in
    let start = begin_sweep side quantity b in
    let t = market_sweep side ts start in
    let first = begin_sweep-SweepInv side quantity b v small in
    let (w, f, stop) =
      market_sweep-SweepInv side ts _ _ _ start first (full-Inv (opposite side) v) in
    let walked =
      market_sweep-Priority side ts (fills_of side ts quantity resting) (rest_of quantity resting) _
        _ _ start (first, full-Inv (opposite side) v)
        (record { fills_here = refl; left_here = refl }) in
    let (fills_end, rest_end) = walk_over side ts t stop in
    (
      sym (ap (λ z. t.executions ++ z) fills_end ∙ append-nil t.executions) ∙ walked.fills_here,
      ap priced (end_sweep-levels side t b).0 ∙ sym rest_end ∙ walked.left_here,
    )
