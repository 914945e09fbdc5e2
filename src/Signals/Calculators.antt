-- ===== src/Signals/Calculators.antt =====
-- `SignalCalculator` with its classes, and `SignalGenerator` (src/signals.cpp). A pointer of
-- `calculator_map_` is the place of its calculator in `calculators_`; `none` is a fault.
pub mod Lookup
pub mod Engine
use Prim.Native.String.{String}
use lobsimulater.Base.{
  ℕ, ◌+◌, pos, List, [], ◌∷◌, ◌++◌, map, Option, none, some, true, if◌then◌else◌, ◌>>=◌, length,
  get_elem?, Named, find_named, set_named,
}
use lobsimulater.Types.{Timestamp}
use lobsimulater.Book.{OrderBook}
use lobsimulater.Double.{Double, nought}
use lobsimulater.Backtester.{Backtester, new_backtester}
use lobsimulater.Signals.{Signal, SignalType, custom, new_signal}
use lobsimulater.Signals.Stateless.{
  OrderImbalance, Microprice, FillRateModel, imbalance_signal, microprice_signal, queue_signal,
}
use lobsimulater.Signals.Pressure.{BookPressure, update_pressure, reset_pressure, pressure_signal}
use lobsimulater.Signals.Flow.{TradeFlow, reset_flow, flow_signal}
use lobsimulater.Signals.Spread.{
  SpreadWindow, new_spread, update_spread, reset_spread, spread_signal,
}

pub data Calculator (D : Type 0) : Type 0 where
  imbalances : OrderImbalance D → Calculator D
  microprices : Microprice → Calculator D
  pressures : BookPressure D → Calculator D
  flows : TradeFlow D → Calculator D
  spreads : SpreadWindow D → Calculator D
  queues : FillRateModel D → Calculator D

abbrev pub get_name : {D : Type 0} → Calculator D → String
get_name (imbalances c) = "OrderImbalance"
get_name (microprices c) = "Microprice"
get_name (pressures c) = "BookPressure"
get_name (flows c) = "TradeFlow"
get_name (spreads c) = "Spread"
get_name (queues c) = "QueuePosition"

pub record SignalGenerator (D : Type 0) : Type 0 where
  pub calculators : List (Calculator D)
  pub calculator_map : Named ℕ

abbrev pub new_generator : {D : Type 0} → SignalGenerator D
new_generator = record { calculators = []; calculator_map = [] }

unfoldable pub add_calculator : {D : Type 0} → Calculator D → SignalGenerator D → SignalGenerator D
add_calculator c g = record {
  calculators = g.calculators ++ (c ∷ []);
  calculator_map = set_named (get_name c) (length g.calculators) g.calculator_map;
}

unfoldable pub reset_generator : {D : Type 0} → SignalGenerator D → SignalGenerator D
reset_generator g = record { calculators = []; calculator_map = [] }

module _ {D : Type 0} ⦃d : Double D⦄ where
  open d use {literal, add, mul, div, lt}

  -- The virtual methods `calculate`, `update` and `reset`.
  unfoldable pub calculate : Calculator D → OrderBook → Timestamp → Signal D
  calculate (imbalances c) book now = imbalance_signal c book now
  calculate (microprices c) book now = microprice_signal c book now
  calculate (pressures c) book now = pressure_signal c book now
  calculate (flows c) book now = flow_signal c book now
  calculate (spreads c) book now = spread_signal c book now
  calculate (queues c) book now = queue_signal book now

  unfoldable pub update_calculator : OrderBook → Calculator D → Option (Calculator D)
  update_calculator book (pressures c) = do c' ← update_pressure book c; some (pressures c')
  update_calculator book (spreads c) = do c' ← update_spread book c; some (spreads c')
  update_calculator book c = some c

  unfoldable pub reset_calculator : Calculator D → Calculator D
  reset_calculator (pressures c) = pressures (reset_pressure c)
  reset_calculator (flows c) = flows (reset_flow c)
  reset_calculator (spreads c) = spreads (reset_spread c)
  reset_calculator c = c

  unfoldable pub generate_signals : OrderBook → Timestamp → SignalGenerator D → List (Signal D)
  generate_signals book now g = map (λ c. calculate c book now) g.calculators

  -- `for (auto& c: calculators_) c->update(book);`
  unfoldable pub update_all : OrderBook → List (Calculator D) → Option (List (Calculator D))
  update_all book [] = some []
  update_all book (c ∷ cs) = do
    c' ← update_calculator book c
    cs' ← update_all book cs
    some (c' ∷ cs')

  unfoldable pub update_generator : OrderBook → SignalGenerator D → Option (SignalGenerator D)
  update_generator book g = do
    cs ← update_all book g.calculators
    some (record g { calculators = cs })

  -- `none` within is `std::nullopt`.
  unfoldable pub get_signal :
      String → OrderBook → Timestamp → SignalGenerator D → Option (Option (Signal D))
  get_signal name book now g = elim (find_named name g.calculator_map) [
    | none ↦ some none
    | some i ↦ do c ← get_elem? g.calculators i; some (some (calculate c book now))
  ]

  -- The loop of `combineSignals`, with its variables `v`, `wc` and `conf`.
  unfoldable pub combine_from : D → D → D → List (Signal D) → List D → D × D × D
  combine_from v wc conf (s ∷ sigs) (w ∷ ws) =
      combine_from (add v (mul w s.value)) (add wc w) (add conf (mul w s.confidence)) sigs ws
  combine_from v wc conf _ _ = (v, wc, conf)

  abbrev pub first_symbol : List (Signal D) → String
  first_symbol [] = ""
  first_symbol (s ∷ sigs) = s.symbol

  unfoldable pub combine_signals : List (Signal D) → List D → Timestamp → Signal D
  combine_signals sigs ws now =
      let (v, wc, conf) = combine_from nought nought nought sigs ws in
      new_signal custom (first_symbol sigs) (if lt nought wc then div v wc else nought)
        (if lt nought wc then div conf wc else nought) now

  -- The calculators that the constructor of `Backtester` adds, and that constructor.
  abbrev pub default_generator : SignalGenerator D
  default_generator = add_calculator (spreads (new_spread (pos 50))) (
      add_calculator (microprices (record { levels = 1; use_size_weighting = true })) (
        add_calculator (imbalances (record { levels = 5; threshold = literal 3 1 })) new_generator))

  unfoldable pub default_backtester : {S : Type 0} → Backtester D S (SignalGenerator D)
  default_backtester = new_backtester default_generator
