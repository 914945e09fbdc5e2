-- ===== src/Metrics/Bounds.antt =====
-- The peaks and drawdowns of a curve in the order of numbers.
use lobsimulater.Base.{◌≡◌, sym, subst, List, [], ◌∷◌, true, false, Bool-cases, inl, inr, All}
use lobsimulater.Types.{Timestamp}
use lobsimulater.Double.{Double, nought, max_of}
use lobsimulater.Metrics.{DrawdownPoint, Series, TradeRecord, compute_max_drawdown, compute_metrics}
use lobsimulater.Metrics.Drawdown.{highest, drawdowns, points, drawdown_from-points}

-- The comparison of numbers, none of which is NaN: of two at most one is below the other, and what is
-- not below a second, itself not below a third, is not below the third.
pub record OrderLaws (D : Type 0) ⦃d : Double D⦄ : Type 0 where
  pub lt_asym : (a b : D) → d.lt a b ≡ true → d.lt b a ≡ false
  pub lt_trans : (a b c : D) → d.lt a b ≡ false → d.lt b c ≡ false → d.lt a c ≡ false

module _ {D : Type 0} ⦃d : Double D⦄ (laws : OrderLaws D) where
  open d use {lt}

  lt_irrefl : (a : D) → lt a a ≡ false
  lt_irrefl a = elim (Bool-cases (lt a a)) [
    | inl below ↦ laws.lt_asym a a below
    | inr not_below ↦ not_below
  ]

  max_of-left : (a b : D) → lt (max_of a b) a ≡ false
  max_of-left a b = elim (Bool-cases (lt a b)) [
    | inl below ↦ rw below (laws.lt_asym a b below)
    | inr above ↦ rw above (lt_irrefl a)
  ]

  max_of-right : (a b : D) → lt (max_of a b) b ≡ false
  max_of-right a b = elim (Bool-cases (lt a b)) [
    | inl below ↦ rw below (lt_irrefl b)
    | inr above ↦ rw above above
  ]

  -- The highest of some numbers is not below the first.
  highest-first : (m : D) (xs : List D) → lt (highest m xs) m ≡ false
  highest-first m [] = lt_irrefl m
  highest-first m (x ∷ xs) =
      laws.lt_trans (highest (max_of m x) xs) (max_of m x) m (highest-first (max_of m x) xs)
        (max_of-left m x)

  highest-drawdowns :
      (m : D) (cs : List (DrawdownPoint D))
      → All (λ c. lt (highest m (drawdowns cs)) c.dd ≡ false) cs
  highest-drawdowns m [] = tt
  highest-drawdowns m (c ∷ cs) =
      let top = max_of m c.dd in
      (
        laws.lt_trans (highest top (drawdowns cs)) top c.dd (highest-first top (drawdowns cs))
            (max_of-right m c.dd),
        highest-drawdowns top cs,
      )

  points-peak : (peak : D) (eq : Series D) → All (λ c. lt c.peak c.equity ≡ false) (points peak eq)
  points-peak peak [] = tt
  points-peak peak (p ∷ eq) = (max_of-right peak p.1, points-peak (max_of peak p.1) eq)

  -- Where comparison obeys its laws, no point of the curve of `computeMetrics` has a peak below its
  -- equity, no drawdown of the curve is above the maximal drawdown, and that is not below 0.
  pub compute_metrics_bounds :
      (p q : Timestamp × D) (eq : Series D) (trades : List (TradeRecord D))
      (rf_annual trading_day_seconds : D)
      → let r = compute_metrics (p ∷ q ∷ eq) trades rf_annual trading_day_seconds in
        All (λ c. lt c.peak c.equity ≡ false) r.equity_curve
        × All (λ c. lt r.max_drawdown c.dd ≡ false) r.equity_curve
        × (lt r.max_drawdown nought ≡ false)
  unfolding compute_metrics compute_max_drawdown
  compute_metrics_bounds p q eq trades rf_annual trading_day_seconds =
      let all_points = points p.1 (p ∷ q ∷ eq) in
      subst
        (λ (r : D × List (DrawdownPoint D)).
          All (λ c. lt c.peak c.equity ≡ false) r.1
          × All (λ c. lt r.0 c.dd ≡ false) r.1
          × (lt r.0 nought ≡ false))
        (sym (drawdown_from-points p.1 nought [] (p ∷ q ∷ eq)))
        (
          points-peak p.1 (p ∷ q ∷ eq),
          highest-drawdowns nought all_points,
          highest-first nought (drawdowns all_points),
        )
