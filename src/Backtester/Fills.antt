-- ===== src/Backtester/Fills.antt =====
-- How the fills of a market order reach the portfolio (src/backtester.cpp, `processOrder` and
-- `processFill`).
use Prim.Native.String.{String}
use text.Mathlib.TextPositions.{eq_refl}
use lobsimulater.Base.{
  ℕ, ◌+◌, ◌<◌, ◌^◌, ◌≡◌, refl, ap, ◌∙◌, subst, List, [], ◌∷◌, if◌then◌else◌, arith, All, ℤ, pos,
  negate, ◌+ℤ◌, ◌-ℤ◌, int_laws, ◌==◌, min, pos_part, neg_part,
}
use lobsimulater.Book.{OrderBook, levels_of}
use lobsimulater.Types.{opposite, bid, market, Order, Execution}
use lobsimulater.Levels.{side_volume}
use lobsimulater.Fill.{executed}
use lobsimulater.Market.{process_market_order}
use lobsimulater.Market.Fills.{process_market_order-executed}
use lobsimulater.Market.Sides.{process_market_order-own_id, own_id}
use lobsimulater.Double.{Double, price_to_double}
use lobsimulater.Portfolio.{Portfolio, get_net_position}
use lobsimulater.Portfolio.Net.{trade_position-get_net_position}
use lobsimulater.Backtester.{
  Event, Hooks, Generator, Backtester, book_at, each, apply_fill, apply_fills, place_order,
  signed_fill,
}
use lobsimulater.Backtester.Books.{AllSound, book_at-Sound}

-- Strategies that leave the portfolio alone when they hear of a fill.
abbrev pub LeavesPortfolio : {D S X : Type 0} → Hooks D S X → Type 0
LeavesPortfolio {D} {S} hooks =
    (x : Execution) (s : S) (f : Portfolio D) → (hooks.on_fill x s f).1 ≡ f

pub each-kept :
    {S P : Type 0} (f : S → P → S × P) (ss : List S) (pf : P)
    → ((s : S) (p : P) → (f s p).1 ≡ p)
    → (each f ss pf).1 ≡ pf
unfolding each
each-kept f [] pf h = refl
each-kept f (s ∷ ss) pf h = each-kept f ss (f s pf).1 h ∙ h s pf

negate_parts : (m : ℕ) → (pos_part (negate (pos m)) ≡ 0) × (neg_part (negate (pos m)) ≡ m)
unfolding negate
negate_parts m = ground arith

negate-executed : (a : ℤ) (m n : ℕ) → a +ℤ negate (pos m) -ℤ pos n ≡ a -ℤ pos (m + n)
negate-executed a m n = omega (int_laws, negate_parts m)

asks_taken : (b : OrderBook) → levels_of (opposite bid) b ≡ b.ask_levels
unfolding levels_of
asks_taken b = refl

module _ {D S G X : Type 0} ⦃d : Double D⦄ (hooks : Hooks D S X) (gen : Generator G X)
    (quiet : LeavesPortfolio hooks) where
  apply_fill-net :
      (name : String) (x : Execution) (t : Backtester D S G)
      → get_net_position name (apply_fill hooks gen name x t).portfolio
        ≡ get_net_position name t.portfolio +ℤ signed_fill hooks gen x
  unfolding apply_fill
  apply_fill-net name x t =
      ap (get_net_position name) (each-kept (hooks.on_fill x) t.strategies _ (quiet x))
      ∙ trade_position-get_net_position name name (signed_fill hooks gen x)
          (price_to_double x.price) t.portfolio
      ∙ rw (eq_refl name) refl

  -- Executions with no bid id are all counted as sold.
  sold-net :
      (name : String) (xs : List Execution) (t : Backtester D S G)
      → All (λ x. own_id bid x ≡ 0) xs
      → get_net_position name (apply_fills hooks gen name xs t).portfolio
        ≡ get_net_position name t.portfolio -ℤ pos (executed xs)
  unfolding apply_fills
  sold-net name [] t h = omega int_laws
  sold-net name (x ∷ xs) t (z, zs) =
      sold-net name xs (apply_fill hooks gen name x t) zs
      ∙ ap (λ a. a -ℤ pos (executed xs))
          (apply_fill-net name x t
            ∙ ap
                (λ (i : ℕ).
                  get_net_position name t.portfolio
                  +ℤ (if i == 0 then negate (pos x.quantity) else pos x.quantity))
                z)
      ∙ negate-executed (get_net_position name t.portfolio) x.quantity (executed xs)

  -- With sound books, and with strategies that do not move the portfolio themselves on a fill, a market
  -- order to BUY a quantity that fits 32 bits lowers the net position of its symbol by what it executes:
  -- the least of its quantity and of all that is offered.
  pub place_order-market_buy :
      (o : Order) (e : Event) (elapsed : ℕ) (t : Backtester D S G)
      → o.side ≡ bid
      → o.quantity < 2 ^ 32
      → AllSound t.order_books
      → get_net_position e.symbol (place_order hooks gen market o e elapsed t).portfolio
        ≡ get_net_position e.symbol t.portfolio
          -ℤ pos (min o.quantity (side_volume (book_at e.symbol t.order_books).ask_levels))
  unfolding place_order
  place_order-market_buy o e elapsed t side small all =
      let b = book_at e.symbol t.order_books in
      let v = book_at-Sound e.symbol t.order_books all in
      let sides = process_market_order-own_id o.side o.quantity e.timestamp b in
      let bought =
        subst
          (λ s. All (λ x. own_id s x ≡ 0) (process_market_order o.side o.quantity e.timestamp b).1)
          side sides in
      sold-net e.symbol _ _ bought
      ∙ ap (λ n. get_net_position e.symbol t.portfolio -ℤ pos n)
          ((process_market_order-executed o.side o.quantity e.timestamp b v.book small).0
            ∙ ap (λ s. min o.quantity (side_volume (levels_of (opposite s) b))) side
            ∙ ap (λ m. min o.quantity (side_volume m)) (asks_taken b))
