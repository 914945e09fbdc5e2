-- ===== src/Market/Invariant.antt =====
-- The loops of `processMarketOrder`: their invariants and measures.
use lobsimulater.Base.{
  ℕ, ◌+◌, ◌<◌, ◌≤◌, ◌^◌, ◌≡◌, refl, sym, ◌∙◌, ap, subst, [], ◌∷◌, ◌++◌, List, true, false,
  List-cases, inl, inr, arith, ◌&&◌, is_empty, not, ltb, min, length, sum_of-append, loop_rule,
}
use lobsimulater.Types.{
  Side, bid, ask, Order, OrderId, Price, Quantity, Timestamp, Execution, opposite, same_side,
}
use lobsimulater.Level.{PriceLevel}
use lobsimulater.Levels.{Levels, side_volume}
use lobsimulater.Levels.Index.{SideInv, keep-SideInv}
use lobsimulater.Book.Invariant.{NoEmpty}
use lobsimulater.Fill.{drop_filled, front_rests, front_length, drop_front, executed}
use lobsimulater.Fill.Keeps.{
  fill-SideInv, fill-SameHits, fill-side_volume, drop_front-SideInv, drop_front-side_volume,
  TailFull, NoEmpty-TailFull, drop_front-NoEmpty, fill_front-queue, drop_front-empty,
  drop_front-full, front_small,
}
use lobsimulater.Market.{
  Sweep, market_fill, market_level, market_round, market_sweep, market_execution,
}

-- What the rounds keep: `other` is the side that they do not touch, `asked` the quantity of the order
-- and `rested` that of the side, when the loop begins.
pub record SweepInv (side : Side) (other : Levels) (asked rested : ℕ) (t : Sweep) : Type 0 where
  pub swept : SideInv (opposite side) t.levels t.orders
  pub kept : SideInv side other t.orders
  pub tail : TailFull t.levels
  pub filled : executed t.executions + t.remaining ≡ asked
  pub volume : side_volume t.levels + executed t.executions ≡ rested
  pub small : t.remaining < 2 ^ 32

opposite-other : (s : Side) → same_side (opposite s) s ≡ false
opposite-other bid = refl
opposite-other ask = refl

execution-quantity :
    (s : Side) (i : OrderId) (p : Price) (q : Quantity) (ts : Timestamp)
    → (market_execution s i p q ts).quantity ≡ q
execution-quantity bid i p q ts = refl
execution-quantity ask i p q ts = refl

pub executed-append :
    (es : List Execution) (e : Execution) → executed (es ++ (e ∷ [])) ≡ executed es + e.quantity
executed-append es e = omega (arith, sum_of-append (λ (x : Execution). x.quantity) es (e ∷ []))

-- What is still to do: the orders of the best level, and the exit of the loop.
abbrev level_measure : Sweep → ℕ
level_measure t = front_length t.levels + min 1 t.remaining

module _ (side : Side) (ts : Timestamp) (other : Levels) (asked rested : ℕ) (t : Sweep)
    (v : SweepInv side other asked rested t) where
  -- A fill of the front order, on a sweep whose levels are in view.
  fill-SweepInv :
      (p : Price) (l : PriceLevel) (m : Levels) (o : Order) (os : List Order)
      → t.levels ≡ (p, l) ∷ m
      → l.queue ≡ o ∷ os
      → SweepInv side other asked rested (market_fill side ts ((p, l) ∷ m) t)
  unfolding market_fill
  fill-SweepInv p l m o os at e =
      let fill = min t.remaining o.remaining_quantity in
      let le : fill ≤ o.remaining_quantity = omega arith in
      let v0 : SideInv (opposite side) ((p, l) ∷ m) t.orders =
        subst (λ x. SideInv (opposite side) x t.orders) at v.swept in
      let more : executed (t.executions ++ (market_execution side o.id p fill ts ∷ []))
          ≡ executed t.executions + fill =
        executed-append t.executions (market_execution side o.id p fill ts)
        ∙ ap (λ n. executed t.executions + n) (execution-quantity side o.id p fill ts) in
      rw (e, market_fill)
        (record {
          swept = fill-SideInv (opposite side) p l m t.orders o os fill v0 e le;
          kept = keep-SideInv v.kept (drop_filled o fill t.orders) (
              fill-SameHits (opposite side) p l m t.orders o os fill v0 e le side
                (opposite-other side));
          tail = subst TailFull at v.tail;
          filled = omega (arith, more, v.filled, v.small);
          volume = omega (
            arith,
            more,
            v.volume,
            ap side_volume at,
            fill-side_volume (opposite side) p l m t.orders o os fill v0 e le,
          );
          small = omega (arith, v.small);
        })

  fill-measure :
      (p : Price) (l : PriceLevel) (m : Levels) (o : Order) (os : List Order)
      → t.levels ≡ (p, l) ∷ m
      → l.queue ≡ o ∷ os
      → 0 < t.remaining
      → level_measure (market_fill side ts ((p, l) ∷ m) t) < level_measure t
  unfolding market_fill
  fill-measure p l m o os at e more =
      let fill = min t.remaining o.remaining_quantity in
      let le : fill ≤ o.remaining_quantity = omega arith in
      let v0 : SideInv (opposite side) ((p, l) ∷ m) t.orders =
        subst (λ x. SideInv (opposite side) x t.orders) at v.swept in
      rw (e, market_fill)
        (ground (
          arith,
          ap (λ (q : List Order). length q)
              (fill_front-queue l o os fill
                (front_small (opposite side) p l o os fill e le (v0.levels).0) le),
          ap front_length at,
          ap (λ (q : List Order). length q) e,
          v.small,
        ))

  fill-length :
      (p : Price) (l : PriceLevel) (m : Levels) (o : Order) (os : List Order)
      → t.levels ≡ (p, l) ∷ m
      → l.queue ≡ o ∷ os
      → length (market_fill side ts ((p, l) ∷ m) t).levels ≡ length t.levels
  unfolding market_fill
  fill-length p l m o os at e =
      rw (e, market_fill) (omega (arith, ap (λ (x : Levels). length x) at))

-- The best level holds an order exactly if its test says so.
pub front_rests-cases :
    (m : Levels)
    → front_rests m ≡ true
    → (p : Price) × (l : PriceLevel) × (n : Levels) × (o : Order) × (os : List Order) × (m
        ≡ (p, l) ∷ n)
      × (l.queue ≡ o ∷ os)
front_rests-cases [] h = absurd (ground arith)
front_rests-cases ((p, l) ∷ n) h = elim (List-cases l.queue) [
  | inl e ↦ absurd (ground (arith, ap (λ (q : List Order). is_empty q) e))
  | inr (o, os, e) ↦ (p, l, n, o, os, refl, e)
]

pub length-pos : (m : Levels) → not (is_empty m) ≡ true → 0 < length m
length-pos [] h = absurd (ground arith)
length-pos (e ∷ m) h = omega arith

-- Once the inner loop has left by its test, the outer loop has less to do.
round_falls :
    (m : Levels) (k r r' : ℕ)
    → length m ≡ k
    → 0 < r
    → 0 < k
    → (ltb 0 r' && front_rests m) ≡ false
    → length (drop_front m) + min 1 r' < k + min 1 r
round_falls [] k r r' n some_left some_levels stop = absurd (omega arith)
round_falls ((p, l) ∷ m) k r r' n some_left some_levels stop = elim (List-cases l.queue) [
  | inl e ↦ rw (drop_front-empty p l m e) (omega arith)
  | inr (x, q, e) ↦
      rw (drop_front-full p l m x q e) (ground (arith, ap (λ (z : List Order). is_empty z) e))
]

module _ (side : Side) (ts : Timestamp) (other : Levels) (asked rested : ℕ) where
  -- The invariant of the inner loop, which keeps the number of levels.
  abbrev pub InLevel : ℕ → Sweep → Type 0
  InLevel k t = SweepInv side other asked rested t × (length t.levels ≡ k)

  pub fill-InLevel :
      (k : ℕ) (t : Sweep)
      → InLevel k t
      → (ltb 0 t.remaining && front_rests t.levels) ≡ true
      → InLevel k (market_fill side ts t.levels t)
        × (level_measure (market_fill side ts t.levels t) < level_measure t)
  fill-InLevel k t (v, n) go =
      let (p, l, m, o, os, at, e) = front_rests-cases t.levels (ground arith) in
      subst
        (λ x.
          InLevel k (market_fill side ts x t)
          × (level_measure (market_fill side ts x t) < level_measure t))
        (sym at)
        (
          (
            fill-SweepInv side ts other asked rested t v p l m o os at e,
            fill-length side ts other asked rested t v p l m o os at e ∙ n,
          ),
          fill-measure side ts other asked rested t v p l m o os at e (ground arith),
        )

  pub market_level-InLevel :
      (k : ℕ) (t : Sweep)
      → InLevel k t
      → InLevel k (market_level side ts t)
        × ((ltb 0 (market_level side ts t).remaining && front_rests (market_level side ts t).levels)
            ≡ false)
  unfolding market_level
  market_level-InLevel k t h =
      loop_rule (λ u. ltb 0 u.remaining && front_rests u.levels)
        (λ u. market_fill side ts u.levels u) (InLevel k) level_measure (fill-InLevel k)
        (front_length t.levels + 2) t (omega arith) h

  -- The invariant of the outer loop, which the exit of the inner one restores.
  abbrev pub InSide : Sweep → Type 0
  InSide t = SweepInv side other asked rested t × NoEmpty t.levels

  pub drop_front-InSide :
      (u : Sweep)
      → SweepInv side other asked rested u
      → InSide (record u { levels = drop_front u.levels })
  drop_front-InSide u w = (
    record {
      swept = drop_front-SideInv (opposite side) u.levels u.orders w.swept;
      kept = w.kept;
      tail = NoEmpty-TailFull (drop_front u.levels) (drop_front-NoEmpty u.levels w.tail);
      filled = w.filled;
      volume = omega (arith, w.volume, drop_front-side_volume u.levels);
      small = w.small;
    },
    drop_front-NoEmpty u.levels w.tail,
  )

  abbrev side_measure : Sweep → ℕ
  side_measure t = length t.levels + min 1 t.remaining

  pub market_round-InSide :
      (t : Sweep)
      → InSide t
      → (ltb 0 t.remaining && not (is_empty t.levels)) ≡ true
      → InSide (market_round side ts t) × (side_measure (market_round side ts t) < side_measure t)
  unfolding market_round
  market_round-InSide t (v, full) go =
      let ((w, n), stop) = market_level-InLevel (length t.levels) t (v, refl) in
      let u = market_level side ts t in
      (
        drop_front-InSide u w,
        round_falls u.levels (length t.levels) t.remaining u.remaining n (ground arith)
            (length-pos t.levels (ground arith)) stop,
      )

  -- The loops end by their tests, and keep the invariant.
  pub market_sweep-SweepInv :
      (t : Sweep)
      → SweepInv side other asked rested t
      → NoEmpty t.levels
      → SweepInv side other asked rested (market_sweep side ts t)
        × NoEmpty (market_sweep side ts t).levels
        × ((ltb 0 (market_sweep side ts t).remaining
              && not (is_empty (market_sweep side ts t).levels))
            ≡ false)
  unfolding market_sweep
  market_sweep-SweepInv t v full =
      let ((w, f), stop) =
        loop_rule (λ u. ltb 0 u.remaining && not (is_empty u.levels)) (market_round side ts) InSide
          side_measure market_round-InSide (length t.levels + 2) t (omega arith) (v, full) in
      (w, f, stop)
