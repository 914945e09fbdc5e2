-- ===== src/Strategies/Quiet.antt =====
-- The portfolio of a backtester that runs the example strategies.
use lobsimulater.Base.{ℕ, ◌≡◌, refl, ◌∙◌, List, [], ◌∷◌, some, All}
use lobsimulater.Base.Results.{
  Ensures, of_some, Ensures-bind, Ensures-then, Ensures-elim, Ensures-weaken,
}
use lobsimulater.Book.{OrderBook}
use lobsimulater.Double.{Double}
use lobsimulater.Portfolio.{Portfolio}
use lobsimulater.Backtester.{
  Event, EventType, market_data, signal, order, fill, end_of_day, Generator, Backtester,
  send_signals, book_at, update_book, dispatch, process_market_data, process_signal, update_metrics,
  process_event, process_events,
}
use lobsimulater.Stats.{get_mid_price}
use lobsimulater.Backtester.Books.{AllSound, Carries, Steady, process_events-AllSound}
use lobsimulater.Backtester.Fills.{each-kept}
use lobsimulater.Strategies.{
  Strategy, market_maker, momentum, hear_market_data, hear_signal, strategy_hooks,
}

-- The events that are no order and no fill.
abbrev pub IsQuiet : EventType → Type 0
IsQuiet order = ⊥
IsQuiet fill = ⊥
IsQuiet _ = Unit

module _ {D : Type 0} ⦃d : Double D⦄ where
  hear_market_data-kept :
      (book : OrderBook) (s : Strategy D) (f : Portfolio D) → (hear_market_data book s f).1 ≡ f
  unfolding hear_market_data
  hear_market_data-kept book (market_maker s) f = refl
  hear_market_data-kept book (momentum s) f = refl

  hear_signal-kept :
      (book : OrderBook) (s : Strategy D) (f : Portfolio D) → (hear_signal book s f).1 ≡ f
  unfolding hear_signal
  hear_signal-kept book (market_maker s) f = refl
  hear_signal-kept book (momentum s) f = refl

module _ {D G X : Type 0} ⦃d : Double D⦄ (gen : Generator G X) where
  send_signals-kept :
      (book : OrderBook) (xs : List X) (ss : List (Strategy D)) (f : Portfolio D)
      → (send_signals strategy_hooks gen book xs ss f).1 ≡ f
  unfolding send_signals
  send_signals-kept book [] ss f = refl
  send_signals-kept book (x ∷ xs) ss f =
      send_signals-kept book xs _ _ ∙ each-kept (hear_signal book) ss f (hear_signal-kept book)

  -- The portfolio is as it was.
  abbrev pub Kept : Backtester D (Strategy D) G → Backtester D (Strategy D) G → Type 0
  Kept t t' = t'.portfolio ≡ t.portfolio

  pub dispatch-Kept :
      (type : EventType) (e : Event) (elapsed : ℕ) (t : Backtester D (Strategy D) G)
      → IsQuiet type
      → Ensures (Kept t) (dispatch strategy_hooks gen type e elapsed t)
  unfolding dispatch process_market_data process_signal update_metrics
  dispatch-Kept market_data e elapsed t quiet = Ensures-bind e.market_update _ λ u.
      Ensures-bind (update_book u.type u elapsed (book_at e.symbol t.order_books)) _ λ b.
        Ensures-bind (gen.update (get_mid_price {D = D} b).1 t.signal_generator) _ λ g.
          of_some
            (each-kept (hear_market_data _) t.strategies t.portfolio (hear_market_data-kept _))
  dispatch-Kept signal e elapsed t quiet = of_some (send_signals-kept _ _ t.strategies t.portfolio)
  dispatch-Kept order e elapsed t quiet = absurd quiet
  dispatch-Kept fill e elapsed t quiet = absurd quiet
  dispatch-Kept end_of_day e elapsed t quiet = of_some refl

  process_events-Kept :
      (es : List (Event × ℕ)) (t : Backtester D (Strategy D) G)
      → All (λ x. IsQuiet (x.0).type) es
      → Ensures (Kept t) (process_events strategy_hooks gen es t)
  unfolding process_events process_event
  process_events-Kept [] t quiet = of_some refl
  process_events-Kept ((e, elapsed) ∷ es) t (q, qs) =
      Ensures-then _ (dispatch-Kept e.type e elapsed t q)
        λ t1 one. Ensures-weaken (process_events-Kept es t1 qs) λ t' rest. rest ∙ one

  -- From sound books and a signal generator that is ready, where it never faults on a ready state and
  -- stays ready, with the example strategies, events that carry the payload of their type, with
  -- quantities below 2 ^ 32, and of which none is an order or a fill, are processed without a fault and
  -- leave the portfolio as it was: the strategies trade nothing.
  pub process_events-portfolio :
      {Ready : G → Type 0} (steady : Steady gen Ready) (es : List (Event × ℕ))
      (t : Backtester D (Strategy D) G)
      → All (λ x. Carries (x.0).type x.0) es
      → All (λ x. IsQuiet (x.0).type) es
      → AllSound t.order_books
      → Ready t.signal_generator
      → (t' : Backtester D (Strategy D) G) × (process_events strategy_hooks gen es t ≡ some t')
        × (t'.portfolio ≡ t.portfolio)
  process_events-portfolio steady es t c quiet all ready =
      let (t', done, sound, ready') =
        process_events-AllSound strategy_hooks gen steady es t c all ready in
      (t', done, Ensures-elim (process_events-Kept es t quiet) done)
