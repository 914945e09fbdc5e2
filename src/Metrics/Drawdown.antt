-- ===== src/Metrics/Drawdown.antt =====
-- The drawdown curve, beside its definition by prefixes of the series.
use mathlib.Core.List.{append_assoc, append-nil}
use mathlib.Core.Option as Option
use lobsimulater.Base.{
  ℕ, zero, suc, ◌≡◌, refl, ◌∙◌, ap, sym, List, [], ◌∷◌, ◌++◌, map, get_elem?, take, ltb, length,
  if◌then◌else◌, arith,
}
use lobsimulater.Types.{Timestamp}
use lobsimulater.Double.{Double, nought, max_of}
use lobsimulater.Metrics.{
  DrawdownPoint, Series, TradeRecord, point, drawdown_from, compute_max_drawdown, compute_metrics,
}

module _ {D : Type 0} ⦃d : Double D⦄ where
  -- The greatest of some numbers, the first of which is given.
  abbrev pub highest : D → List D → D
  highest m [] = m
  highest m (x ∷ xs) = highest (max_of m x) xs

  abbrev pub equities : Series D → List D
  equities = map λ p. p.1

  abbrev pub drawdowns : List (DrawdownPoint D) → List D
  drawdowns = map λ p. p.dd

  -- The points that the loop appends, with the peak that it has reached.
  abbrev pub points : D → Series D → List (DrawdownPoint D)
  points peak [] = []
  points peak (p ∷ eq) = point (max_of peak p.1) p ∷ points (max_of peak p.1) eq

  pub drawdown_from-points :
      (peak maxdd : D) (out : List (DrawdownPoint D)) (eq : Series D)
      → drawdown_from peak maxdd out eq
        ≡ (highest maxdd (drawdowns (points peak eq)), out ++ points peak eq)
  unfolding drawdown_from
  drawdown_from-points peak maxdd out [] = ap (λ c. (maxdd, c)) (sym (append-nil out))
  drawdown_from-points peak maxdd out ((t, x) ∷ eq) =
      let p = point (max_of peak x) (t, x) in
      drawdown_from-points (max_of peak x) (max_of maxdd p.dd) (out ++ (p ∷ [])) eq
      ∙ ap (λ c. (highest (max_of maxdd p.dd) (drawdowns (points (max_of peak x) eq)), c))
          (append_assoc out (p ∷ []) (points (max_of peak x) eq))

  get_elem?-points :
      (peak : D) (eq : Series D) (n : ℕ)
      → get_elem? (points peak eq) n
        ≡ Option.map (λ p. point (highest peak (equities (take (suc n) eq))) p) (get_elem? eq n)
  get_elem?-points peak [] n = refl
  get_elem?-points peak (p ∷ eq) zero = refl
  get_elem?-points peak (p ∷ eq) (suc n) = get_elem?-points (max_of peak p.1) eq n

  -- On a series of two points or more, the curve that `computeMetrics` returns has a point for each of
  -- the series, with its time and its equity; its peak is the highest equity of the series up to there,
  -- and its drawdown is measured from that peak. The maximal drawdown is the highest of those, or 0.
  pub compute_metrics-equity_curve :
      (p q : Timestamp × D) (eq : Series D) (trades : List (TradeRecord D))
      (rf_annual trading_day_seconds : D)
      → let r = compute_metrics (p ∷ q ∷ eq) trades rf_annual trading_day_seconds in
        ((n : ℕ)
          → get_elem? r.equity_curve n
            ≡ Option.map
                (λ x. point (highest p.1 (equities (take (suc n) (p ∷ q ∷ eq)))) x)
                (get_elem? (p ∷ q ∷ eq) n))
        × (r.max_drawdown ≡ highest nought (drawdowns r.equity_curve))
  unfolding compute_metrics compute_max_drawdown
  compute_metrics-equity_curve p q eq trades rf_annual trading_day_seconds =
      let run = drawdown_from-points p.1 nought [] (p ∷ q ∷ eq) in
      (
        λ n. ap (λ r. get_elem? r.1 n) run ∙ get_elem?-points p.1 (p ∷ q ∷ eq) n,
        ap (λ r. r.0) run ∙ sym (ap (λ r. highest nought (drawdowns r.1)) run),
      )

  points-times : (peak : D) (eq : Series D) → map (λ p. p.t) (points peak eq) ≡ map (λ p. p.0) eq
  points-times peak [] = refl
  points-times peak (p ∷ eq) = ap (λ ts. p.0 ∷ ts) (points-times (max_of peak p.1) eq)

  -- The times of the curve are those of a series of two points or more.
  pub equity_curve-times :
      (eq : Series D) (trades : List (TradeRecord D)) (rf_annual trading_day_seconds : D)
      → map (λ p. p.t) (compute_metrics eq trades rf_annual trading_day_seconds).equity_curve
        ≡ (if ltb (length eq) 2 then [] else map (λ p. p.0) eq)
  unfolding compute_metrics compute_max_drawdown
  equity_curve-times [] trades rf_annual trading_day_seconds = refl
  equity_curve-times (p ∷ []) trades rf_annual trading_day_seconds = refl
  equity_curve-times (p ∷ q ∷ eq) trades rf_annual trading_day_seconds =
      ap (λ r. map (λ c. c.t) r.1) (drawdown_from-points p.1 nought [] (p ∷ q ∷ eq))
      ∙ points-times p.1 (p ∷ q ∷ eq)
      ∙ ground arith
