-- ===== src/Examples/Signals.antt =====
-- The signals of the small books.
use mathlib.Core.Option as Option
use lobsimulater.Base.{
  ℤ, pos, negsuc, ◌≡◌, refl, [], ◌∷◌, map, none, some, lookup, insert, arith, All,
}
use lobsimulater.Types.{ask, opposite, Execution, same_price, before}
use lobsimulater.Level
use lobsimulater.Levels.{find_level, put_level}
use lobsimulater.Book.{
  new_book, add_order, enter_order, get_or_create_level, store_level, with_levels, levels_of,
}
use lobsimulater.Market.{process_market_order}
use lobsimulater.Market.Priority.{priced}
use lobsimulater.Signals.Window.{latest}
use lobsimulater.Signals.Pressure.{BookPressure, new_pressure, update_pressure}
use lobsimulater.Signals.Pressure.Touch.{IsStill, update_pressure-IsStill}
use lobsimulater.Signals.Flow.{TradeFlow, new_flow, aggressor, trade_of}
use lobsimulater.Signals.Flow.Aggressor.{
  HasIds, aggressor-process_market_order, on_trades, on_trades-latest,
}
use lobsimulater.Signals.Calculators.{
  SignalGenerator, default_generator, get_signal, calculate, add_calculator,
}
use lobsimulater.Signals.Calculators.Lookup.{
  Reached, begun, added, last_named, get_signal-last_named,
}
use lobsimulater.Signals.Calculators.Engine.{HasWindows, engine, engine-HasWindows}
use lobsimulater.Backtester.{Generator}
use lobsimulater.Examples.{whole, two_asks, crossed, two_asks-Inv, two_asks-CacheInv, crossed-Inv}

crossed-HasIds : HasIds (priced (levels_of (opposite ask) crossed))
unfolding add_order enter_order new_book get_or_create_level store_level with_levels levels_of
    find_level put_level lookup insert same_price before Level.add_order
crossed-HasIds = (refl, tt)

aggressor-process_market_order_example :
    All (λ e. aggressor e ≡ ask) (process_market_order ask 8 4 crossed).1
aggressor-process_market_order_example =
    aggressor-process_market_order ask 8 4 crossed crossed-Inv (omega arith) crossed-HasIds

abbrev sold : Execution
sold = record { bid_id = 3; ask_id = 0; price = pos 10200; quantity = 8; timestamp = 4 }

abbrev bought : Execution
bought = record { bid_id = 0; ask_id = 1; price = pos 10100; quantity = 2; timestamp = 5 }

on_trades-latest_example :
    ((c : TradeFlow ℤ) × (on_trades (sold ∷ bought ∷ []) (new_flow (pos 1) (pos 2)) ≡ some c)
      × (c.recent_trades ≡ latest 1 (map trade_of (sold ∷ bought ∷ []))))
    × (on_trades (sold ∷ sold ∷ bought ∷ []) (new_flow {D = ℤ} (negsuc 1) (pos 2)) ≡ none)
on_trades-latest_example = on_trades-latest 1 (pos 2) sold (sold ∷ bought ∷ [])

update_pressure-IsStill_example :
    (c : BookPressure ℤ) × (update_pressure two_asks (new_pressure (pos 100)) ≡ some c)
    × All IsStill c.recent_events
update_pressure-IsStill_example =
    update_pressure-IsStill two_asks (new_pressure (pos 100)) 100 two_asks-Inv two_asks-CacheInv
      refl tt

default-Reached : Reached {D = ℤ} default_generator
default-Reached = added _ (added _ (added _ begun))

get_signal-last_named_example :
    get_signal {D = ℤ} "Microprice" two_asks 7 default_generator
    ≡ some (
        Option.map
          (λ c. calculate c two_asks 7)
          (last_named "Microprice" (default_generator {D = ℤ}).calculators))
get_signal-last_named_example =
    get_signal-last_named default_generator "Microprice" two_asks 7 default-Reached

default-HasWindows : All HasWindows (default_generator {D = ℤ}).calculators
unfolding add_calculator
default-HasWindows = (tt, (tt, ((50, refl), tt)))

engine-HasWindows_example :
    let update = Generator.update (engine {D = ℤ} 7) in
    (g' : SignalGenerator ℤ) × (update two_asks default_generator ≡ some g')
    × All HasWindows g'.calculators
engine-HasWindows_example = engine-HasWindows 7 two_asks default_generator default-HasWindows
