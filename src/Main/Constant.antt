-- ===== src/Main/Constant.antt =====
-- `main` on a file without trades: the equity that it measures.
use Prim.Native.String.{String}
use mathlib.Core.List.{append_assoc, append-nil}
use lobsimulater.Base.{
  arith, ℕ, ◌+◌, ◌≡◌, refl, sym, ◌∙◌, ap, List, [], ◌∷◌, ◌++◌, map, some, true, All, Named,
  find_named,
}
use lobsimulater.Base.Results.{
  Ensures, of_some, Ensures-bind, Ensures-then, Ensures-elim, Ensures-weaken, Ensures-both,
}
use lobsimulater.Types.{Timestamp}
use lobsimulater.Double.{Double, nought}
use lobsimulater.Portfolio.{
  Snapshot, new_portfolio, get_equity, get_total_pnl, get_realized_pnl, get_unrealized_pnl,
  sum_realized, sum_unrealized, take_snapshot,
}
use lobsimulater.Metrics.{BacktestResult, Series, compute_metrics}
use lobsimulater.Backtester.{
  Event, EventType, market_data, signal, order, fill, end_of_day, Generator, Backtester,
  new_backtester, add_strategy, dispatch, process_market_data, process_signal, update_metrics,
  process_event, process_events, run, run_source, finish, equity_series, update_book, book_at,
}
use lobsimulater.Backtester.Books.{AllSound}
use lobsimulater.Backtester.Days.{days, days_of}
use lobsimulater.Strategies.{Strategy, strategy_hooks}
use lobsimulater.Strategies.Quiet.{IsQuiet, dispatch-Kept}
use lobsimulater.Signals.Calculators.{default_backtester}
use lobsimulater.Signals.Calculators.Engine.{engine, engine-Steady, HasWindows}
use lobsimulater.Stats.{get_mid_price}
use lobsimulater.Signals.Calculators.{add_calculator}
use lobsimulater.Csv.{Numbers, load_buffer}
use lobsimulater.Csv.Replay.{file_known, timed, load_buffer-run}
use lobsimulater.Main.{reset, bench, main}

series-append :
    {D : Type 0} (xs ys : List (Snapshot D))
    → equity_series (xs ++ ys) ≡ equity_series xs ++ equity_series ys
series-append [] ys = refl
series-append (x ∷ xs) ys = ap (λ s. (x.timestamp, x.equity) ∷ s) (series-append xs ys)

module _ {D : Type 0} where
  -- The same equity at each of some times.
  abbrev pub constant : D → List Timestamp → Series D
  constant x = map λ ts. (ts, x)

  constant-append :
      (x : D) (ss ts : List Timestamp) → constant x (ss ++ ts) ≡ constant x ss ++ constant x ts
  constant-append x [] ts = refl
  constant-append x (s ∷ ss) ts = ap (λ m. (s, x) ∷ m) (constant-append x ss ts)

module _ {D G X : Type 0} ⦃d : Double D⦄ (gen : Generator G X) (x : D) where
  -- A portfolio whose equity is the same at all prices.
  abbrev Fixed : Backtester D (Strategy D) G → Type 0
  Fixed t = (prices : Named D) → get_equity prices t.portfolio ≡ x

  abbrev Grown : List Timestamp → Backtester D (Strategy D) G → Backtester D (Strategy D) G → Type 0
  Grown ts t t' =
      equity_series t'.portfolio_history ≡ equity_series t.portfolio_history ++ constant x ts

  dispatch-Grown :
      (type : EventType) (e : Event) (elapsed : ℕ) (t : Backtester D (Strategy D) G)
      → IsQuiet type
      → Fixed t
      → Ensures (Grown (days_of type e.timestamp) t) (dispatch strategy_hooks gen type e elapsed t)
  unfolding dispatch process_market_data process_signal update_metrics take_snapshot
  dispatch-Grown market_data e elapsed t quiet fixed = Ensures-bind e.market_update _ λ u.
      Ensures-bind (update_book u.type u elapsed (book_at e.symbol t.order_books)) _ λ b.
        Ensures-bind (gen.update (get_mid_price {D = D} b).1 t.signal_generator) _
          λ g. of_some (sym (append-nil (equity_series t.portfolio_history)))
  dispatch-Grown signal e elapsed t quiet fixed =
      of_some (sym (append-nil (equity_series t.portfolio_history)))
  dispatch-Grown order e elapsed t quiet fixed = absurd quiet
  dispatch-Grown fill e elapsed t quiet fixed = absurd quiet
  dispatch-Grown end_of_day e elapsed t quiet fixed = of_some (
      series-append t.portfolio_history _
      ∙ ap (λ z. equity_series t.portfolio_history ++ ((e.timestamp, z) ∷ []))
          (fixed t.current_prices))

  process_events-Grown :
      (es : List (Event × ℕ)) (t : Backtester D (Strategy D) G)
      → All (λ z. IsQuiet (z.0).type) es
      → Fixed t
      → Ensures (Grown (days es) t) (process_events strategy_hooks gen es t)
  unfolding process_events process_event
  process_events-Grown [] t quiet fixed =
      of_some (sym (append-nil (equity_series t.portfolio_history)))
  process_events-Grown ((e, elapsed) ∷ es) t (q, qs) fixed =
      let kept = dispatch-Kept gen e.type e elapsed t q in
      Ensures-then _ (Ensures-both kept (dispatch-Grown e.type e elapsed t q fixed))
        λ t1 (same, one).
          Ensures-weaken
            (process_events-Grown es t1 qs λ prices. ap (get_equity prices) same ∙ fixed prices)
            λ t' rest.
              rest
              ∙ ap (λ m. m ++ constant x (days es)) one
              ∙ append_assoc (equity_series t.portfolio_history) _ _
              ∙ ap (λ m. equity_series t.portfolio_history ++ m)
                  (sym (constant-append x (days_of e.type e.timestamp) (days es)))

no_books-AllSound : AllSound []
unfolding find_named
no_books-AllSound name b e = absurd (ground arith)

-- The calculators that the constructor adds have no window of a negative size.
bench-HasWindows :
    (D : Type 0) ⦃d : Double D⦄ (rand : ℕ → ℕ)
    → All HasWindows (bench {D = D} rand).signal_generator.calculators
unfolding default_backtester new_backtester add_strategy add_calculator
bench-HasWindows D rand = (tt, (tt, ((50, refl), tt)))

timed-IsQuiet :
    (clock : ℕ → ℕ) (k : ℕ) (es : List Event)
    → All (λ e. IsQuiet e.type) es
    → All (λ z. IsQuiet (z.0).type) (timed clock k es)
timed-IsQuiet clock k [] quiet = tt
timed-IsQuiet clock k (e ∷ es) (q, qs) = (q, timed-IsQuiet clock (k + 1) es qs)

module _ {D : Type 0} ⦃d : Double D⦄ where
  open d use {literal, mul}

  -- The equity of the portfolio that the constructor makes.
  abbrev pub opening_equity : D
  opening_equity = get_equity [] (new_portfolio (literal 1000000 0))

  -- The metrics of a run in which the equity never moves.
  abbrev pub idle_result : List Timestamp → BacktestResult D
  idle_result ts =
      compute_metrics (constant opening_equity ts) [] nought (mul (literal 65 1) (literal 3600 0))

  bench-Fixed :
      (rand : ℕ → ℕ) (prices : Named D)
      → get_equity prices (bench ⦃d = d⦄ rand).portfolio ≡ opening_equity
  unfolding default_backtester new_backtester add_strategy new_portfolio get_equity get_total_pnl
      get_realized_pnl get_unrealized_pnl sum_realized sum_unrealized
  bench-Fixed rand prices = refl

  run-idle_result :
      (rand : ℕ → ℕ) (now : Timestamp) (es : List (Event × ℕ))
      → All (λ z. IsQuiet (z.0).type) es
      → Ensures
          (λ t. t.last_result ≡ idle_result (days es))
          (run strategy_hooks (engine now) es (bench rand))
  unfolding run finish
  run-idle_result rand now es quiet =
      Ensures-then _
        (process_events-Grown (engine now) opening_equity es _ quiet (bench-Fixed rand))
        λ t' grown.
          of_some
            (ap (λ m. compute_metrics m [] nought (mul (literal 65 1) (literal 3600 0))) grown)

  -- On a file that opens and loads, whose first line is a header or of a known kind and whose other
  -- lines are empty or of a known kind, and of which no event is an order or a fill, `main` ends without
  -- a fault, and prints the Sharpe ratio and the maximum drawdown of an equity that is, at each end of a
  -- day, the opening equity: the market maker never trades.
  pub main-idle_result :
      (numbers : Numbers) (clock rand : ℕ → ℕ) (now : Timestamp) (lines : List String)
      (es : List Event)
      → file_known lines ≡ true
      → load_buffer numbers lines ≡ some es
      → All (λ e. IsQuiet e.type) es
      → main numbers clock rand now (some lines)
        ≡ some (
          (idle_result (days (timed clock 0 es))).sharpe,
          (idle_result (days (timed clock 0 es))).max_drawdown,
        )
  unfolding main reset run_source default_backtester new_backtester add_strategy
  main-idle_result numbers clock rand now lines es known loaded quiet =
      let (t, done, sound, ready) =
        load_buffer-run numbers clock strategy_hooks (engine now) (engine-Steady now) lines es
          (bench rand) known loaded no_books-AllSound (bench-HasWindows D rand) in
      let result =
        Ensures-elim (run-idle_result rand now (timed clock 0 es) (timed-IsQuiet clock 0 es quiet))
          done in
      rw (loaded, done) (ap (λ r. some (r.sharpe, r.max_drawdown)) result)
