-- ===== src/Backtester/Days.antt =====
-- The history of a run, a snapshot for each day that ends, and the curve of its result.
use Prim.Native.String.{String}
use mathlib.Core.List.{append_assoc, append-nil}
use lobsimulater.Base.{
  ℕ, ◌≡◌, refl, sym, ◌∙◌, ap, List, [], ◌∷◌, ◌++◌, map, some, All, if◌then◌else◌, ltb, length,
  arith,
}
use lobsimulater.Base.Results.{
  Ensures, of_some, Ensures-bind, Ensures-then, Ensures-elim, Ensures-weaken,
}
use lobsimulater.Types.{Timestamp, market, limit, stop, stop_limit, OrderType, Order, Execution}
use lobsimulater.Portfolio.{Snapshot, take_snapshot}
use lobsimulater.Double.{Double}
use lobsimulater.Metrics.Drawdown.{equity_curve-times}
use lobsimulater.Backtester.{
  Event, EventType, market_data, signal, order, fill, end_of_day, Hooks, Generator, Backtester,
  dispatch, process_event, process_events, run, finish, process_market_data, process_signal,
  process_order, place_order, process_fill, apply_fill, apply_fills, update_metrics, book_at,
  update_book, equity_series,
}
use lobsimulater.Stats.{get_mid_price}
use lobsimulater.Backtester.Books.{AllSound, Carries, Steady, run-AllSound}

-- The times of the events that end a day.
abbrev pub days_of : EventType → Timestamp → List Timestamp
days_of end_of_day ts = ts ∷ []
days_of _ ts = []

abbrev pub days : List (Event × ℕ) → List Timestamp
days [] = []
days ((e, elapsed) ∷ es) = days_of e.type e.timestamp ++ days es

abbrev pub times : {D : Type 0} → List (Snapshot D) → List Timestamp
times = map λ s. s.timestamp

times-append : {D : Type 0} (xs ys : List (Snapshot D)) → times (xs ++ ys) ≡ times xs ++ times ys
times-append [] ys = refl
times-append (x ∷ xs) ys = ap (λ ts. x.timestamp ∷ ts) (times-append xs ys)

no_times :
    {D : Type 0} (xs : List (Snapshot D)) {ys : List (Snapshot D)}
    → ys ≡ xs
    → times ys ≡ times xs ++ []
no_times xs same = ap times same ∙ sym (append-nil (times xs))

series-times : {D : Type 0} (xs : List (Snapshot D)) → map (λ p. p.0) (equity_series xs) ≡ times xs
series-times [] = refl
series-times (x ∷ xs) = ap (λ ts. x.timestamp ∷ ts) (series-times xs)

series-length :
    {D : Type 0} (xs : List (Snapshot D)) → length (equity_series xs) ≡ length (times xs)
series-length [] = refl
series-length (x ∷ xs) = omega (arith, series-length xs)

module _ {D S G : Type 0} where
  -- The history of a finished run and the curve of its result, for the days that ended.
  abbrev pub Reports : List Timestamp → Backtester D S G → Type 0
  Reports ts t =
      (times t.portfolio_history ≡ ts)
      × (map (λ p. p.t) t.last_result.equity_curve ≡ (if ltb (length ts) 2 then [] else ts))

module _ {D S G X : Type 0} ⦃d : Double D⦄ (hooks : Hooks D S X) (gen : Generator G X) where
  apply_fills-history :
      (name : String) (xs : List Execution) (t : Backtester D S G)
      → (apply_fills hooks gen name xs t).portfolio_history ≡ t.portfolio_history
  unfolding apply_fills apply_fill
  apply_fills-history name [] t = refl
  apply_fills-history name (x ∷ xs) t = apply_fills-history name xs (apply_fill hooks gen name x t)

  place_order-history :
      (type : OrderType) (o : Order) (e : Event) (elapsed : ℕ) (t : Backtester D S G)
      → (place_order hooks gen type o e elapsed t).portfolio_history ≡ t.portfolio_history
  unfolding place_order
  place_order-history market o e elapsed t = apply_fills-history e.symbol _ _
  place_order-history limit o e elapsed t = refl
  place_order-history stop o e elapsed t = refl
  place_order-history stop_limit o e elapsed t = refl

  -- The days of some events come behind those of the history.
  abbrev Continues : List Timestamp → Backtester D S G → Backtester D S G → Type 0
  Continues ts t t' = times t'.portfolio_history ≡ times t.portfolio_history ++ ts

  dispatch-Continues :
      (type : EventType) (e : Event) (elapsed : ℕ) (t : Backtester D S G)
      → Ensures (Continues (days_of type e.timestamp) t) (dispatch hooks gen type e elapsed t)
  unfolding dispatch process_market_data process_order process_fill process_signal update_metrics
      apply_fill take_snapshot
  dispatch-Continues market_data e elapsed t = Ensures-bind e.market_update _ λ u.
      Ensures-bind (update_book u.type u elapsed (book_at e.symbol t.order_books)) _ λ b.
        Ensures-bind (gen.update (get_mid_price {D = D} b).1 t.signal_generator) _
          λ g. of_some (no_times t.portfolio_history refl)
  dispatch-Continues signal e elapsed t = of_some (no_times t.portfolio_history refl)
  dispatch-Continues order e elapsed t =
      Ensures-bind e.order _
        λ o. of_some (no_times t.portfolio_history (place_order-history o.type o e elapsed t))
  dispatch-Continues fill e elapsed t =
      Ensures-bind e.execution _ λ x. of_some (no_times t.portfolio_history refl)
  dispatch-Continues end_of_day e elapsed t = of_some (times-append t.portfolio_history _)

  process_events-Continues :
      (es : List (Event × ℕ)) (t : Backtester D S G)
      → Ensures (Continues (days es) t) (process_events hooks gen es t)
  unfolding process_events process_event
  process_events-Continues [] t = of_some (no_times t.portfolio_history refl)
  process_events-Continues ((e, elapsed) ∷ es) t =
      Ensures-then _ (dispatch-Continues e.type e elapsed t) λ t1 one.
        Ensures-weaken (process_events-Continues es t1) λ t' rest.
          rest
          ∙ ap (λ ts. ts ++ days es) one
          ∙ append_assoc (times t.portfolio_history) (days_of e.type e.timestamp) (days es)

  finish-Reports :
      (ts : List Timestamp) (t : Backtester D S G)
      → times t.portfolio_history ≡ ts
      → Reports ts (finish hooks t)
  unfolding finish
  finish-Reports ts t h = (
    h,
    equity_curve-times (equity_series t.portfolio_history) [] _ _
        ∙ ap (λ n. if ltb n 2 then [] else map (λ p. p.0) (equity_series t.portfolio_history))
            (series-length t.portfolio_history ∙ ap (λ (x : List Timestamp). length x) h)
        ∙ ap (λ x. if ltb (length ts) 2 then [] else x) (series-times t.portfolio_history ∙ h),
  )

  run-Ensures :
      (es : List (Event × ℕ)) (t : Backtester D S G)
      → Ensures (Reports (days es)) (run hooks gen es t)
  unfolding run
  run-Ensures es t =
      Ensures-then _ (process_events-Continues es _) λ t' h. of_some (finish-Reports (days es) t' h)

  -- From sound books and a signal generator that is ready, where it never faults on a ready state and
  -- stays ready, a run over events that all carry the payload of their type, with quantities below
  -- 2 ^ 32, ends with one snapshot for each event that ends a day, at its time and in their order, and
  -- the equity curve of its result has a point at each of these times, if there are two or more.
  pub run-Reports :
      {Ready : G → Type 0} (steady : Steady gen Ready) (es : List (Event × ℕ))
      (t : Backtester D S G)
      → All (λ x. Carries (x.0).type x.0) es
      → AllSound t.order_books
      → Ready t.signal_generator
      → (t' : Backtester D S G) × (run hooks gen es t ≡ some t') × Reports (days es) t'
  run-Reports steady es t c all ready =
      let (t', done, sound, ready') = run-AllSound hooks gen steady es t c all ready in
      (t', done, Ensures-elim (run-Ensures es t) done)
