-- ===== src/Crossing/Priority.antt =====
-- The order of trading in `matchOrders`, against a step relation on the orders of the two sides.
use lobsimulater.Base.{
  ℕ, ◌+◌, ◌-◌, ◌<◌, ◌≤◌, ◌^◌, ◌≡◌, refl, sym, ◌∙◌, ap, subst, [], ◌∷◌, ◌++◌, List, true, false,
  if◌then◌else◌, Bool-cases, ◌==◌, inl, inr, arith, ◌&&◌, min, length, loop_keeps_on, ltb_ℤ,
}
use lobsimulater.Types.{bid, ask, Order, Price, Quantity, Execution}
use lobsimulater.Level.{PriceLevel}
use lobsimulater.Levels.{Levels, side_volume}
use lobsimulater.Levels.Index.{SideInv}
use lobsimulater.Book.{OrderBook}
use lobsimulater.Book.Invariant.{Inv, NoEmpty}
use lobsimulater.Fill.{fill_front, drop_front, front_rests, front_length}
use lobsimulater.Fill.Keeps.{front_small, fill_front-queue}
use lobsimulater.Market.Invariant.{front_rests-cases}
use lobsimulater.Market.Priority.{priced, at_price, priced-drop_front}
use lobsimulater.Crossing.{
  Crossing, match_execution, match_fill, match_front, match_level, match_round, match_sweep,
  crosses, begin_match, match_orders,
}
use lobsimulater.Crossing.Loops.{
  InLevel, InSides, match_front-InLevel, match_round-InSides, match_front-match_fill,
}
use lobsimulater.Crossing.Result.{begin_match-Still}

-- A side after its front order lost `f`: a filled order goes.
abbrev pub lessened : Price → Order → Quantity → List (Price × Order) → List (Price × Order)
lessened p o f os =
    if o.remaining_quantity == f
    then os
    else (p, record o { remaining_quantity = o.remaining_quantity - f }) ∷ os

-- What a sequence of trades between the front orders of two sides makes of them: while the first bid is
-- not below the first ask, the two trade the lesser of what they have.
pub data Trades (bids0 asks0 : List (Price × Order))
    : List Execution → List (Price × Order) → List (Price × Order) → Type 0 where
  opening : Trades bids0 asks0 [] bids0 asks0
  fronts_trade :
      (es : List Execution) (p q : Price) (b a : Order) (bs as' : List (Price × Order))
      → Trades bids0 asks0 es ((p, b) ∷ bs) ((q, a) ∷ as')
      → ltb_ℤ p q ≡ false
      → Trades bids0 asks0
          (es ++ (match_execution b a (min b.remaining_quantity a.remaining_quantity) ∷ []))
          (lessened p b (min b.remaining_quantity a.remaining_quantity) bs)
          (lessened q a (min b.remaining_quantity a.remaining_quantity) as')

priced-fill_front :
    (p : Price) (l : PriceLevel) (m : Levels) (o : Order) (os : List Order) (f : Quantity)
    → o.remaining_quantity < 2 ^ 32
    → f ≤ o.remaining_quantity
    → priced ((p, fill_front l o os f) ∷ m) ≡ lessened p o f (at_price p os ++ priced m)
priced-fill_front p l m o os f small le = elim (Bool-cases (o.remaining_quantity == f)) [
  | inl all ↦
      rw all (ap (λ q. at_price p q ++ priced m) (rw all at (fill_front-queue l o os f small le)))
  | inr part ↦
      rw part (ap (λ q. at_price p q ++ priced m) (rw part at (fill_front-queue l o os f small le)))
]

-- The first keys of the two sides cross.
abbrev KeysCross : Levels → Levels → Type 0
KeysCross ((p, l) ∷ m) ((q, k) ∷ n) = ltb_ℤ p q ≡ false
KeysCross _ _ = Unit

crosses-KeysCross :
    (bids asks : Levels) (c : Crossing)
    → SideInv bid bids c.orders
    → SideInv ask asks c.orders
    → crosses bids asks ≡ true
    → KeysCross bids asks
crosses-KeysCross [] asks c v w h = tt
crosses-KeysCross ((p, l) ∷ m) [] c v w h = tt
crosses-KeysCross ((p, l) ∷ m) ((q, k) ∷ n) c v w h =
    let levels_cross : ltb_ℤ l.price k.price ≡ false = ground arith in
    sym (ap (λ x. ltb_ℤ x k.price) (v.levels).0.price ∙ ap (λ x. ltb_ℤ p x) (w.levels).0.price)
    ∙ levels_cross

module _ (bids0 asks0 : List (Price × Order)) where
  abbrev Traded : Crossing → Type 0
  Traded c = Trades bids0 asks0 c.executions (priced c.bids) (priced c.asks)

  fill-Traded :
      (c : Crossing) (p q : Price) (l k : PriceLevel) (m n : Levels) (b a : Order)
      (bs as' : List Order)
      → SideInv bid ((p, l) ∷ m) c.orders
      → SideInv ask ((q, k) ∷ n) c.orders
      → l.queue ≡ b ∷ bs
      → k.queue ≡ a ∷ as'
      → ltb_ℤ p q ≡ false
      → Trades bids0 asks0 c.executions (priced ((p, l) ∷ m)) (priced ((q, k) ∷ n))
      → Traded (match_fill (p, l) m (q, k) n (b ∷ bs) (a ∷ as') c)
  unfolding match_fill
  fill-Traded c p q l k m n b a bs as' v w e f cross traded =
      let fill = min b.remaining_quantity a.remaining_quantity in
      let bid_le : fill ≤ b.remaining_quantity = omega arith in
      let ask_le : fill ≤ a.remaining_quantity = omega arith in
      let fronts =
        subst
          (λ x. Trades bids0 asks0 c.executions (at_price p x ++ priced m) (priced ((q, k) ∷ n))) e
          traded in
      let fronts' =
        subst
          (λ x.
            Trades bids0 asks0 c.executions (at_price p (b ∷ bs) ++ priced m)
              (at_price q x ++ priced n))
          f fronts in
      let next =
        fronts_trade c.executions p q b a (at_price p bs ++ priced m) (at_price q as' ++ priced n)
          fronts' cross in
      subst
        (λ x.
          Trades bids0 asks0 (c.executions ++ (match_execution b a fill ∷ [])) x
            (priced ((q, fill_front k a as' fill) ∷ n)))
        (sym (
          priced-fill_front p l m b bs fill (front_small bid p l b bs fill e bid_le (v.levels).0)
            bid_le))
        (subst
          (λ x.
            Trades bids0 asks0 (c.executions ++ (match_execution b a fill ∷ []))
              (lessened p b fill (at_price p bs ++ priced m)) x)
          (sym (
            priced-fill_front q k n a as' fill
              (front_small ask q k a as' fill f ask_le (w.levels).0) ask_le))
          next)

  fill-KeysCross :
      (c : Crossing) (p q : Price) (l k : PriceLevel) (m n : Levels) (b a : Order)
      (bs as' : List Order)
      → ltb_ℤ p q ≡ false
      → KeysCross
          (match_fill (p, l) m (q, k) n (b ∷ bs) (a ∷ as') c).bids
          (match_fill (p, l) m (q, k) n (b ∷ bs) (a ∷ as') c).asks
  unfolding match_fill
  fill-KeysCross c p q l k m n b a bs as' cross = cross

  module _ (bid_rest ask_rest : ℕ) (bids1 asks1 : Levels) (f : NoEmpty bids1)
      (g : NoEmpty asks1) where
    -- The invariants of the two loops.
    abbrev TradedInLevel : ℕ → ℕ → Crossing → Type 0
    TradedInLevel k j c =
        InLevel bid_rest ask_rest bids1 asks1 f g k j c × Traded c × KeysCross c.bids c.asks

    match_front-TradedInLevel :
        (k j : ℕ) (c : Crossing)
        → TradedInLevel k j c
        → (front_rests c.bids && front_rests c.asks) ≡ true
        → TradedInLevel k j (match_front c.bids c.asks c)
    match_front-TradedInLevel k j c (h, traded, cross) go =
        let (p, l, m, b, bs, at_bid, e) = front_rests-cases c.bids (ground arith) in
        let (q, r, n, a, as', at_ask, e') = front_rests-cases c.asks (ground arith) in
        let step : match_front c.bids c.asks c ≡ match_fill (p, l) m (q, r) n (b ∷ bs) (a ∷ as') c =
          match_front-match_fill c.bids c.asks c p q l r m n (b ∷ bs) (a ∷ as') at_bid at_ask e
            e' in
        let keys : ltb_ℤ p q ≡ false =
          subst (λ x. KeysCross ((p, l) ∷ m) x) at_ask
            (subst (λ x. KeysCross x c.asks) at_bid cross) in
        let v = subst (λ x. SideInv bid x c.orders) at_bid (h.0.inv).bids in
        let w = subst (λ x. SideInv ask x c.orders) at_ask (h.0.inv).asks in
        let fronts =
          subst (λ x. Trades bids0 asks0 c.executions (priced ((p, l) ∷ m)) (priced x)) at_ask
            (subst (λ x. Trades bids0 asks0 c.executions (priced x) (priced c.asks)) at_bid
              traded) in
        (
          (match_front-InLevel bid_rest ask_rest bids1 asks1 f g k j c h go).0,
          subst Traded (sym step) (fill-Traded c p q l r m n b a bs as' v w e e' keys fronts),
          subst (λ d. KeysCross d.bids d.asks) (sym step)
              (fill-KeysCross c p q l r m n b a bs as' keys),
        )

    match_round-Traded :
        (c : Crossing)
        → InSides bid_rest ask_rest bids1 asks1 f g c × Traded c
        → crosses c.bids c.asks ≡ true
        → InSides bid_rest ask_rest bids1 asks1 f g (match_round c) × Traded (match_round c)
    unfolding match_round match_level
    match_round-Traded c (h, traded) go =
        let keys = crosses-KeysCross c.bids c.asks c (h.0.inv).bids (h.0.inv).asks go in
        let (i, after, k) =
          loop_keeps_on (λ d. front_rests d.bids && front_rests d.asks)
            (λ d. match_front d.bids d.asks d) (TradedInLevel (length c.bids) (length c.asks))
            (match_front-TradedInLevel (length c.bids) (length c.asks))
            (front_length c.bids + front_length c.asks + 1) c ((h.0, refl, refl), traded, keys) in
        let d = match_level c in
        (
          (match_round-InSides bid_rest ask_rest bids1 asks1 f g c h go).0,
          subst (λ x. Trades bids0 asks0 d.executions (priced (drop_front d.bids)) x)
              (sym (priced-drop_front d.asks))
              (subst (λ x. Trades bids0 asks0 d.executions x (priced d.asks))
                (sym (priced-drop_front d.bids)) after),
        )

    match_sweep-Traded :
        (c : Crossing)
        → InSides bid_rest ask_rest bids1 asks1 f g c
        → Traded c
        → Traded (match_sweep c)
    unfolding match_sweep
    match_sweep-Traded c h traded =
        (loop_keeps_on (λ d. crosses d.bids d.asks) match_round
          (λ d. InSides bid_rest ask_rest bids1 asks1 f g d × Traded d) match_round-Traded
          (length c.bids + length c.asks + 1) c (h, traded)).1

-- On a book that satisfies the invariant, the executions of `matchOrders`, and the orders that it
-- leaves on both sides, are those of a sequence of trades, each between the first bid and the first ask
-- in price-time order, while that bid is not below that ask, for the lesser of their quantities.
pub match_orders-Trades :
    (b : OrderBook)
    → Inv b
    → Trades
        (priced b.bid_levels)
        (priced b.ask_levels)
        (match_orders b).1
        (priced (match_orders b).0.bid_levels)
        (priced (match_orders b).0.ask_levels)
unfolding match_orders
match_orders-Trades b v =
    match_sweep-Traded (priced b.bid_levels) (priced b.ask_levels) (side_volume b.bid_levels)
      (side_volume b.ask_levels) b.bid_levels b.ask_levels v.full_bids v.full_asks (begin_match b)
      (begin_match-Still b v v.full_bids v.full_asks, v.full_bids, v.full_asks) opening
