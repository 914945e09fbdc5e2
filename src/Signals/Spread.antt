-- ===== src/Signals/Spread.antt =====
-- `SpreadSignal` (src/signals.cpp).
use lobsimulater.Base.{
  ℤ, List, [], ◌∷◌, ◌++◌, Option, some, Bool, if◌then◌else◌, is_empty, ◌>>=◌, set_named,
}
use lobsimulater.Types.{Timestamp}
use lobsimulater.Book.{OrderBook}
use lobsimulater.Stats.{get_spread}
use lobsimulater.Double.{Double, nought, abs_of}
use lobsimulater.Metrics.{back}
use lobsimulater.Signals.{Signal, spread, new_signal, trim, clamp, mean_of, std_dev_of}

pub record SpreadWindow (D : Type 0) : Type 0 where
  pub ma_periods : ℤ
  pub spread_history : List D

module _ {D : Type 0} ⦃d : Double D⦄ where
  open d use {literal, sub, div, lt}

  abbrev pub new_spread : ℤ → SpreadWindow D
  new_spread periods = record { ma_periods = periods; spread_history = [] }

  unfoldable pub update_spread : OrderBook → SpreadWindow D → Option (SpreadWindow D)
  update_spread book c = do
    kept ← trim c.ma_periods (c.spread_history ++ ((get_spread book).0 ∷ []))
    some (record c { spread_history = kept })

  unfoldable pub get_current_spread : SpreadWindow D → D
  get_current_spread c = nought

  unfoldable pub get_average_spread : SpreadWindow D → D
  get_average_spread c = mean_of c.spread_history

  -- How far the last of some numbers is from their mean, in standard deviations.
  abbrev pub score_of : List D → D
  score_of [] = nought
  score_of (x ∷ xs) =
      let s = std_dev_of (x ∷ xs) in
      if lt nought s then div (sub (back x xs) (mean_of (x ∷ xs))) s else nought

  unfoldable pub get_spread_z_score : SpreadWindow D → D
  get_spread_z_score c = score_of c.spread_history

  unfoldable pub is_spread_wide : SpreadWindow D → Bool
  is_spread_wide c = lt (literal 1 0) (get_spread_z_score c)

  unfoldable pub reset_spread : SpreadWindow D → SpreadWindow D
  reset_spread c = record c { spread_history = [] }

  unfoldable pub spread_signal : SpreadWindow D → OrderBook → Timestamp → Signal D
  spread_signal c book now =
      let cur = (get_spread book).0 in
      let z = if is_empty c.spread_history then nought else get_spread_z_score c in
      let average = if is_empty c.spread_history then cur else get_average_spread c in
      record (new_signal spread book.symbol z
        (clamp (div (abs_of z) (literal 3 0)) (literal 0 0) (literal 1 0)) now) {
          metadata = set_named "avg_spread" average (set_named "spread" cur []);
        }
