-- ===== src/Examples/Reports.antt =====
-- The reports of a run of two days, and the example strategies over a feed.
use mathlib.Core.Option as Option
use lobsimulater.Base.{
  ltb_ℤ, ℕ, ℤ, pos, suc, ◌≡◌, refl, List, [], ◌∷◌, some, none, false, arith, All, get_elem?, take,
}
use lobsimulater.Types.{Timestamp}
use lobsimulater.Double.{nought}
use lobsimulater.Metrics.{Series, blank_result, point, compute_metrics}
use lobsimulater.Metrics.Drawdown.{highest, equities, drawdowns, compute_metrics-equity_curve}
use lobsimulater.Metrics.Bounds.{OrderLaws, compute_metrics_bounds}
use lobsimulater.Backtester.{Event, end_of_day, Backtester, run, process_events}
use lobsimulater.Backtester.Books.{Carries}
use lobsimulater.Backtester.Days.{Reports, days, run-Reports}
use lobsimulater.Signals.Window.{latest}
use lobsimulater.Strategies.{Strategy, momentum, market_maker, Momentum, strategy_hooks}
use lobsimulater.Strategies.History.{mids, observe_all, observe_all-latest}
use lobsimulater.Strategies.Quiet.{IsQuiet, process_events-portfolio}
use lobsimulater.Examples.{whole, two_asks, crossed}
use lobsimulater.Examples.Trading.{
  idle, mute, mute-Steady, tester, books, books-AllSound, feed, feeding,
}

abbrev fall : Series ℤ
fall = (3, pos 90) ∷ []

abbrev series : Series ℤ
series = (1, pos 100) ∷ (2, pos 120) ∷ fall

compute_metrics-equity_curve_example :
    let r = compute_metrics series [] (pos 0) (pos 23400) in
    ((n : ℕ)
      → get_elem? r.equity_curve n
        ≡ Option.map
            (λ x. point (highest (pos 100) (equities (take (suc n) series))) x)
            (get_elem? series n))
    × (r.max_drawdown ≡ highest nought (drawdowns r.equity_curve))
compute_metrics-equity_curve_example =
    compute_metrics-equity_curve (1, pos 100) (2, pos 120) fall [] (pos 0) (pos 23400)

whole-OrderLaws : OrderLaws ℤ
whole-OrderLaws = record {
  lt_asym = λ a b h. ground (arith, h);
  lt_trans = λ a b c h k. ground (arith, h, k);
}

compute_metrics_bounds_example :
    let r = compute_metrics series [] (pos 0) (pos 23400) in
    All (λ c. ltb_ℤ c.peak c.equity ≡ false) r.equity_curve
    × All (λ c. ltb_ℤ r.max_drawdown c.dd ≡ false) r.equity_curve
    × (ltb_ℤ r.max_drawdown nought ≡ false)
compute_metrics_bounds_example =
    compute_metrics_bounds whole-OrderLaws (1, pos 100) (2, pos 120) fall [] (pos 0) (pos 23400)

abbrev closing : Timestamp → Event
closing ts = record {
  type = end_of_day;
  timestamp = ts;
  symbol = "";
  market_update = none;
  order = none;
  execution = none;
}

abbrev two_days : List (Event × ℕ)
two_days = (feeding, 10) ∷ (closing 8, 10) ∷ (closing 9, 10) ∷ []

two_days-Carries : All (λ x. Carries (x.0).type x.0) two_days
two_days-Carries = ((feed, refl, omega arith), (tt, (tt, tt)))

run-Reports_example :
    (t' : Backtester ℤ Unit Unit) × (run idle mute two_days tester ≡ some t')
    × Reports (days two_days) t'
run-Reports_example =
    run-Reports idle mute mute-Steady two_days tester two_days-Carries books-AllSound tt

abbrev watcher : Momentum ℤ
watcher = record {
  lookback_periods = pos 1;
  entry_z_score = pos 2;
  exit_z_score = pos 1;
  price_history = [];
  in_position = false;
}

observe_all-latest_example :
    (observe_all (two_asks ∷ crossed ∷ []) watcher).price_history
    ≡ latest 1 (mids (two_asks ∷ crossed ∷ []))
observe_all-latest_example = observe_all-latest 1 (two_asks ∷ crossed ∷ []) watcher refl refl

abbrev desk : Backtester ℤ (Strategy ℤ) Unit
desk = record {
  strategies =
      momentum watcher
      ∷ market_maker (record {
        spread_bps = pos 10;
        order_size = pos 100;
        max_inventory = pos 1000;
        active_orders = [];
        rand = λ n. n;
        draws = 0;
      })
      ∷ [];
  portfolio = tester.portfolio;
  order_books = books;
  signal_generator = tt;
  current_prices = [];
  perf_stats = record { events_processed = 0; orders_sent = 0; orders_filled = 0 };
  portfolio_history = [];
  initial_capital = pos 100000;
  commission_rate = pos 0;
  last_result = blank_result;
}

two_days-IsQuiet : All (λ x. IsQuiet (x.0).type) two_days
two_days-IsQuiet = (tt, (tt, (tt, tt)))

process_events-portfolio_example :
    (t' : Backtester ℤ (Strategy ℤ) Unit) × (process_events strategy_hooks mute two_days desk
      ≡ some t')
    × (t'.portfolio ≡ desk.portfolio)
process_events-portfolio_example =
    process_events-portfolio mute mute-Steady two_days desk two_days-Carries two_days-IsQuiet
      books-AllSound tt
