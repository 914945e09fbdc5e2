-- ===== src/Metrics.antt =====
-- The metrics of a run (include/lob/metrics.hpp, src/metrics.cpp): returns, ratios and drawdown of a
-- series of equities, turnover and capacity of a list of trades.
pub mod Drawdown
pub mod Bounds
use Prim.Native.String.{String}
use lobsimulater.Base.{
  ℕ, zero, suc, ◌+◌, ◌-◌, ℤ, List, [], ◌∷◌, ◌++◌, map, Bool, if◌then◌else◌, ltb, length, max, pos,
}
use lobsimulater.Types.{Timestamp, add64, sub64}
use lobsimulater.Double.{Double, of_ℕ, nought, max_of, abs_of}

pub record DrawdownPoint (D : Type 0) : Type 0 where
  pub t : Timestamp
  pub equity : D
  pub peak : D
  pub dd : D

pub record BacktestResult (D : Type 0) : Type 0 where
  pub total_return : D
  pub annualized_return : D
  pub volatility : D
  pub sharpe : D
  pub sortino : D
  pub max_drawdown : D
  pub calmar : D
  pub turnover : D
  pub capacity_estimate : D
  pub num_trades : ℕ
  pub equity_curve : List (DrawdownPoint D)

pub record TradeRecord (D : Type 0) : Type 0 where
  pub timestamp : Timestamp
  pub symbol : String
  pub qty : ℤ
  pub price : D
  pub commission : D
  pub slippage : D

-- A `std::vector<std::pair<std::uint64_t, double>>`.
abbrev pub Series : Type 0 → Type 0
Series D = List (Timestamp × D)

-- `back()` of a vector whose first element is given.
abbrev pub back {ℓ} : {A : Type ℓ} → A → List A → A
back x [] = x
back x (y ∷ ys) = back y ys

module _ {D : Type 0} ⦃d : Double D⦄ where
  open d use {literal, of_ℤ, add, sub, mul, div, lt, sqrt, pow}

  abbrev pub one : D
  one = literal 1 0

  -- `BacktestResult{}`.
  abbrev pub blank_result : BacktestResult D
  blank_result = record {
    total_return = nought;
    annualized_return = nought;
    volatility = nought;
    sharpe = nought;
    sortino = nought;
    max_drawdown = nought;
    calmar = nought;
    turnover = nought;
    capacity_estimate = nought;
    num_trades = 0;
    equity_curve = [];
  }

  -- The loop of `diffs`, behind the equity `before`.
  unfoldable pub diffs_from : D → Series D → List D
  diffs_from before [] = []
  diffs_from before ((t, x) ∷ eq) =
      div (sub x before) (max_of (literal 1 12) before) ∷ diffs_from x eq

  unfoldable pub diffs : Series D → List D
  diffs [] = []
  diffs ((t, x) ∷ eq) = diffs_from x eq

  -- `for (auto x: xs) acc += f(x);`
  unfoldable pub accumulate {ℓ} : {A : Type ℓ} → (A → D) → D → List A → D
  accumulate f acc [] = acc
  accumulate f acc (x ∷ xs) = accumulate f (add acc (f x)) xs

  -- The mean of the returns over `rf`, and the square of a return's distance from it.
  abbrev pub excess_mean : List D → D → D
  excess_mean rets rf = div (accumulate (λ r. sub r rf) nought rets) (of_ℕ (length rets))

  abbrev pub square : D → D
  square x = mul x x

  unfoldable pub compute_sharpe : List D → D → D
  compute_sharpe rets rf =
      let m = excess_mean rets rf in
      let v = accumulate (λ r. square (sub (sub r rf) m)) nought rets in
      let s = sqrt (div v (of_ℕ (max 1 (length rets - 1)))) in
      if ltb (length rets) 2 then nought else if lt nought s then div m s else nought

  -- The loop of `computeSortino` over the losses, with its sum and its count.
  unfoldable pub losses_from : D → D → ℕ → List D → D × ℕ
  losses_from rf dd n [] = (dd, n)
  losses_from rf dd n (r ∷ rets) =
      let dr = sub r rf in
      let counted = losses_from rf (add dd (mul dr dr)) (n + 1) rets in
      let passed = losses_from rf dd n rets in if lt dr nought then counted else passed

  unfoldable pub compute_sortino : List D → D → D
  compute_sortino [] rf = nought
  compute_sortino (r ∷ rets) rf =
      let m = excess_mean (r ∷ rets) rf in
      let (dd, n) = losses_from rf nought 0 (r ∷ rets) in
      let s = if ltb 0 n then sqrt (div dd (of_ℕ n)) else nought in
      if lt nought s then div m s else nought

  -- A point of the curve, under a peak.
  abbrev pub point : D → Timestamp × D → DrawdownPoint D
  point peak (t, x) = record {
    t = t;
    equity = x;
    peak = peak;
    dd = div (sub peak x) (max_of (literal 1 12) peak);
  }

  -- The loop of `computeMaxDrawdown`, with its variables `peak` and `maxdd` and the curve so far.
  unfoldable pub drawdown_from :
      D → D → List (DrawdownPoint D) → Series D → D × List (DrawdownPoint D)
  drawdown_from peak maxdd out [] = (maxdd, out)
  drawdown_from peak maxdd out ((t, x) ∷ eq) =
      let p = point (max_of peak x) (t, x) in
      drawdown_from (max_of peak x) (max_of maxdd p.dd) (out ++ (p ∷ [])) eq

  -- The drawdown, and the vector at `curve_out`.
  unfoldable pub compute_max_drawdown :
      Series D → List (DrawdownPoint D) → D × List (DrawdownPoint D)
  compute_max_drawdown [] out = (nought, out)
  compute_max_drawdown ((t, x) ∷ eq) out = drawdown_from x nought [] ((t, x) ∷ eq)

  unfoldable pub compute_turnover : List (TradeRecord D) → D
  compute_turnover trades = accumulate (λ t. mul (abs_of (of_ℤ t.qty)) t.price) nought trades

  unfoldable pub estimate_capacity : List (TradeRecord D) → D → D
  estimate_capacity trades impact_coef_bps =
      let turnover = compute_turnover trades in
      if lt nought turnover
      then max_of nought (sub one (mul (mul impact_coef_bps (literal 1 4)) turnover))
      else one

  -- `r.volatility`.
  abbrev pub volatility_of : List D → D
  volatility_of rets =
      mul
        (sqrt
          (max_of nought (div (accumulate square nought rets) (of_ℕ (max 1 (length rets - 1))))))
        (sqrt (literal 252 0))

  unfoldable pub compute_metrics : Series D → List (TradeRecord D) → D → D → BacktestResult D
  compute_metrics ((t0, start) ∷ (t1, x1) ∷ eq) trades rf_annual trading_day_seconds =
      let all_points = (t0, start) ∷ (t1, x1) ∷ eq in
      let (t_end, end) = back (t1, x1) eq in
      let total_return = div (sub end start) start in
      let seconds = div (of_ℕ (sub64 t_end t0)) (literal 1000000000 0) in
      let days = max_of one (div seconds trading_day_seconds) in
      let rets = diffs all_points in
      let rf_per_period = div rf_annual (literal 252 0) in
      let (deepest, curve) = compute_max_drawdown all_points [] in
      record {
        total_return = total_return;
        annualized_return = sub (pow (add one total_return) (div (literal 252 0) days)) one;
        volatility = volatility_of rets;
        sharpe = mul (compute_sharpe rets rf_per_period) (sqrt (literal 252 0));
        sortino = mul (compute_sortino rets rf_per_period) (sqrt (literal 252 0));
        max_drawdown = deepest;
        calmar = if lt nought deepest then div total_return deepest else nought;
        turnover = compute_turnover trades;
        capacity_estimate = estimate_capacity trades (literal 1 1);
        num_trades = length trades;
        equity_curve = curve;
      }
  compute_metrics _ trades rf_annual trading_day_seconds = blank_result
