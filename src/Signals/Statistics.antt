-- ===== src/Signals/Statistics.antt =====
-- `SignalStatistics` (src/signals.cpp). Numbers that are compared are not NaN.
use lobsimulater.Base.{
  suc, pos_part, List, [], ◌∷◌, Option, some, if◌then◌else◌, ltb, ◌==◌, ◌&&◌, ◌>>=◌, length,
  get_elem?,
}
use lobsimulater.Double.{Double, nought, of_ℕ}
use lobsimulater.Metrics.{accumulate, square}
use lobsimulater.Signals.{mean_of, std_dev_of}

-- The pairs at the places that both lists have.
abbrev pub paired : {A : Type 0} → List A → List A → List (A × A)
paired (x ∷ xs) (y ∷ ys) = (x, y) ∷ paired xs ys
paired _ _ = []

module _ {D : Type 0} ⦃d : Double D⦄ where
  open d use {literal, to_ℤ, add, sub, mul, div, lt, eq, sqrt}

  unfoldable pub rolling_mean : List D → D
  rolling_mean v = mean_of v

  unfoldable pub rolling_std_dev : List D → D
  rolling_std_dev v = std_dev_of v

  -- The mean of a power of the standard scores.
  abbrev pub score_mean : (D → D) → List D → D
  score_mean power v =
      let m = rolling_mean v in
      let s = rolling_std_dev v in
      div (accumulate (λ x. power (div (sub x m) s)) nought v) (of_ℕ (length v))

  unfoldable pub rolling_skewness : List D → D
  rolling_skewness v =
      if ltb (length v) 3
      then nought
      else if eq (rolling_std_dev v) nought
      then nought
      else score_mean (λ z. mul (mul z z) z) v

  unfoldable pub rolling_kurtosis : List D → D
  rolling_kurtosis v =
      if ltb (length v) 4
      then nought
      else if eq (rolling_std_dev v) nought
      then nought
      else sub (score_mean (λ z. mul (mul (mul z z) z) z) v) (literal 3 0)

  unfoldable pub correlation : List D → List D → D
  correlation x y =
      let ps = paired x y in
      let n : D = of_ℕ (length ps) in
      let mx = div (accumulate (λ p. p.0) nought ps) n in
      let my = div (accumulate (λ p. p.1) nought ps) n in
      let sxx = accumulate (λ p. square (sub p.0 mx)) nought ps in
      let syy = accumulate (λ p. square (sub p.1 my)) nought ps in
      let sxy = accumulate (λ p. mul (sub p.0 mx) (sub p.1 my)) nought ps in
      if ltb (length ps) 2
      then nought
      else if lt nought sxx && lt nought syy
      then div sxy (sqrt (mul sxx syy))
      else nought

  unfoldable pub z_score : D → D → D → D
  z_score v m s = if lt nought s then div (sub v m) s else nought

  unfoldable pub ema : D → D → D → D
  ema nv pe a = add (mul a nv) (mul (sub (literal 1 0) a) pe)

  -- `std::sort`.
  unfoldable pub place : D → List D → List D
  place x [] = x ∷ []
  place x (y ∷ ys) = let later = y ∷ place x ys in if lt y x then later else x ∷ y ∷ ys

  unfoldable pub sort : List D → List D
  sort [] = []
  sort (x ∷ xs) = place x (sort xs)

  -- `std::clamp(pct, 0.0, 1.0)`.
  abbrev pub unit_clamp : D → D
  unit_clamp pct =
      if lt pct nought then nought else if lt (literal 1 0) pct then literal 1 0 else pct

  -- Between the places `lo` and `hi` that `idx`, which is not negative, lies between.
  unfoldable pub interpolate : D → List D → Option D
  interpolate idx vals =
      let lo = pos_part (to_ℤ idx) in
      let hi = if lt (of_ℕ lo) idx then suc lo else lo in
      let w = sub idx (of_ℕ lo) in
      let mixed : Option D = (do
        a ← get_elem? vals lo
        b ← get_elem? vals hi
        some (add (mul (sub (literal 1 0) w) a) (mul w b))) in
      if lo == hi then get_elem? vals lo else mixed

  unfoldable pub percentile : List D → D → Option D
  percentile [] pct = some nought
  percentile (v ∷ vals) pct =
      interpolate (mul (unit_clamp pct) (of_ℕ (length vals))) (sort (v ∷ vals))
