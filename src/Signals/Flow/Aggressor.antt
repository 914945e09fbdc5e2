-- ===== src/Signals/Flow/Aggressor.antt =====
-- Which side of a trade is taken for its aggressor, and which trades are kept.
use mathlib.Core.List.{append_assoc, append-nil}
use lobsimulater.Base.{
  ℕ, ◌-◌, ◌<◌, ◌^◌, ◌≡◌, refl, sym, ◌∙◌, ap, subst, pos, negsuc, List, [], ◌∷◌, ◌++◌, map, Option,
  some, none, false, Bool-cases, inl, inr, ◌==◌, ◌>>=◌, All, min,
}
use lobsimulater.Types.{
  Side, bid, ask, Order, OrderId, Price, Execution, Quantity, Timestamp, opposite,
}
use lobsimulater.Book.{OrderBook, levels_of}
use lobsimulater.Book.Invariant.{Inv}
use lobsimulater.Market.{process_market_order, market_execution}
use lobsimulater.Market.Priority.{priced, fills_of, process_market_order-fills_of}
use lobsimulater.Double.{Double}
use lobsimulater.Signals.{trim}
use lobsimulater.Signals.Window.{latest, latest-append, trim-then, trim-negsuc, drop-nil}
use lobsimulater.Signals.Flow.{
  Trade, TradeFlow, aggressor, trade_of, add_volume, on_trade, new_flow,
}

-- Some resting orders have ids other than 0, which the executions use for the market order itself.
abbrev pub HasIds : List (Price × Order) → Type 0
HasIds = All λ x. ((x.1).id == 0) ≡ false

aggressor-market_execution :
    (s : Side) (i : OrderId) (p : Price) (q : Quantity) (ts : Timestamp)
    → (i == 0) ≡ false
    → aggressor (market_execution s i p q ts) ≡ s
aggressor-market_execution bid i p q ts h = refl
aggressor-market_execution ask i p q ts h = rw h refl

aggressor-fills_of :
    (side : Side) (ts : Timestamp) (r : ℕ) (os : List (Price × Order))
    → HasIds os
    → All (λ e. aggressor e ≡ side) (fills_of side ts r os)
unfolding fills_of
aggressor-fills_of side ts r [] h = tt
aggressor-fills_of side ts r ((p, o) ∷ os) (i, is) = elim (Bool-cases (r == 0)) [
  | inl done ↦ rw (done, fills_of) tt
  | inr more ↦
      rw (more, fills_of)
        (
          aggressor-market_execution side o.id p (min r o.remaining_quantity) ts i,
          aggressor-fills_of side ts (r - o.remaining_quantity) os is,
        )
]

-- On a book that satisfies the invariant, where no order opposite to a market order for less than
-- 2 ^ 32 has the id 0, `onTrade` takes the side of the market order for the aggressor of each of its
-- executions.
pub aggressor-process_market_order :
    (side : Side) (quantity : Quantity) (ts : Timestamp) (b : OrderBook)
    → Inv b
    → quantity < 2 ^ 32
    → HasIds (priced (levels_of (opposite side) b))
    → All (λ e. aggressor e ≡ side) (process_market_order side quantity ts b).1
aggressor-process_market_order side quantity ts b v small ids =
    subst (All λ e. aggressor e ≡ side)
      (sym (process_market_order-fills_of side quantity ts b v small).0)
      (aggressor-fills_of side ts quantity (priced (levels_of (opposite side) b)) ids)

module _ {D : Type 0} ⦃d : Double D⦄ where
  -- A call of `onTrade` for each of some executions.
  unfoldable pub on_trades : List Execution → TradeFlow D → Option (TradeFlow D)
  on_trades [] c = some c
  on_trades (e ∷ es) c = do c' ← on_trade e c; on_trades es c'

  add_volume-trades :
      (s : Side) (q : Quantity) (c : TradeFlow D)
      → ((add_volume s q c).recent_trades ≡ c.recent_trades)
        × ((add_volume s q c).lookback_trades ≡ c.lookback_trades)
  unfolding add_volume
  add_volume-trades bid q c = (refl, refl)
  add_volume-trades ask q c = (refl, refl)

  on_trade-latest :
      (n : ℕ) (hist : List Trade) (e : Execution) (c : TradeFlow D)
      → c.lookback_trades ≡ pos n
      → c.recent_trades ≡ latest n hist
      → (c' : TradeFlow D) × (on_trade e c ≡ some c')
        × (c'.lookback_trades ≡ pos n)
        × (c'.recent_trades ≡ latest n (hist ++ (trade_of e ∷ [])))
  unfolding on_trade
  on_trade-latest n hist e c size kept =
      let window = latest n (hist ++ (trade_of e ∷ [])) in
      let c1 : TradeFlow D = record c { recent_trades = window } in
      let grown = c.recent_trades ++ (trade_of e ∷ []) in
      let done : List Trade → TradeFlow D =
        λ xs. add_volume (aggressor e) e.quantity (record c { recent_trades = xs }) in
      let kept_then : latest n grown ≡ window =
        ap (λ xs. latest n (xs ++ (trade_of e ∷ []))) kept
        ∙ latest-append n hist (trade_of e ∷ []) in
      let (same, still) = add_volume-trades (aggressor e) e.quantity c1 in
      (
        done window,
        trim-then n grown (λ xs. some (done xs)) size ∙ ap (λ xs. some (done xs)) kept_then,
        still ∙ size,
        same,
      )

  on_trades-window :
      (n : ℕ) (hist : List Trade) (es : List Execution) (c : TradeFlow D)
      → c.lookback_trades ≡ pos n
      → c.recent_trades ≡ latest n hist
      → (c' : TradeFlow D) × (on_trades es c ≡ some c')
        × (c'.recent_trades ≡ latest n (hist ++ map trade_of es))
  unfolding on_trades
  on_trades-window n hist [] c size kept = (c, refl, kept ∙ ap (latest n) (sym (append-nil hist)))
  on_trades-window n hist (e ∷ es) c size kept =
      let (c1, done, size1, kept1) = on_trade-latest n hist e c size kept in
      let (c', finish, window) = on_trades-window n (hist ++ (trade_of e ∷ [])) es c1 size1 kept1 in
      (
        c',
        ap (λ m. m >>= on_trades es) done ∙ finish,
        window ∙ ap (latest n) (append_assoc hist (trade_of e ∷ []) (map trade_of es)),
      )

  on_trade-negsuc :
      (n : ℕ) (e : Execution) (c : TradeFlow D) → c.lookback_trades ≡ negsuc n → on_trade e c ≡ none
  unfolding on_trade
  on_trade-negsuc n e c size =
      ap
        (λ (m : Option (List Trade)). m >>= λ (xs : List Trade).
          some (add_volume (aggressor e) e.quantity (record c { recent_trades = xs })))
        (ap (λ m. trim m (c.recent_trades ++ (trade_of e ∷ []))) size
          ∙ trim-negsuc n (c.recent_trades ++ (trade_of e ∷ [])))

  -- After `onTrade` for any sequence of executions on a new `TradeFlowSignal`, its window holds the last
  -- ones of them, as many as its lookback. With a negative lookback the first call pops from an empty
  -- deque.
  pub on_trades-latest :
      (n : ℕ) (decay : D) (e : Execution) (es : List Execution)
      → ((c : TradeFlow D) × (on_trades es (new_flow (pos n) decay) ≡ some c)
          × (c.recent_trades ≡ latest n (map trade_of es)))
        × (on_trades (e ∷ es) (new_flow (negsuc n) decay) ≡ none)
  unfolding on_trades
  on_trades-latest n decay e es = (
    on_trades-window n [] es (new_flow (pos n) decay) refl (sym (drop-nil (0 - n))),
    ap (λ m. m >>= on_trades es) (on_trade-negsuc n e (new_flow (negsuc n) decay) refl),
  )
